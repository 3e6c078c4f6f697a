-- ===== src/Transfer/Request.antt =====
-- A request body on its way from handleProxy (internal/relay/proxy.go) through Encode, DecodeFrame,
-- dispatchFrame (internal/agent/connector.go) and the bounded channel of routeBodyFrame to assembleBody
-- (agent.go). The read loop and the goroutine of the request take turns in any order.
use modelrelay.Base.{
  ℕ, ◌≡◌, refl, sym, ap, ◌∙◌, subst, inl, inr, true, false, List, [], ◌∷◌, ◌++◌, map, Option, none,
  some, some-injective, arith, ◌==◌, ltb, length, lookup, insert, lookup-insert_self, nat_eq,
  byte_list_eq, All, Bool-cases, append_assoc, append-nil, ok, err,
}
use modelrelay.Protocol.Frame.{Frame, frame_request_body, encode, decode_frame}
use modelrelay.Protocol.Frame.RoundTrip.{decode_frame-encode}
use modelrelay.Relay.Chunks.{request_frames}
use modelrelay.Agent.Body.{BodyEvent, body_frame, body_frame_of, assemble_body}
use modelrelay.Agent.Requests.{
  ActiveRequest, AgentState, enqueue, touch, route_body_frame, dispatch_frame, received, receive,
}
use modelrelay.Transfer.{IsRequestFrame, request_frames-IsRequestFrame, assembled}

-- The next frame reaches the agent, or the request's goroutine takes one from its channel.
pub data Turn : Type 0 where
  arrives takes : Turn

-- One WebSocket message: what the relay writes for a frame, as the agent's read loop treats it.
unfoldable pub carried : Frame → AgentState → AgentState
carried f a = elim (encode f) [ err e ↦ a | ok message ↦ dispatch_frame message a ]

abbrev pub and_then : Option Frame → List BodyEvent → List BodyEvent
and_then none evs = evs
and_then (some f) evs = body_frame f ∷ evs

-- What the goroutine of the request at `p` takes, with the frames that are still to come and the agent
-- at the end.
unfoldable pub along :
    ℕ → List Turn → List Frame → AgentState → List BodyEvent × (List Frame × AgentState)
unfolding carried receive
along p [] fs a = ([], (fs, a))
along p (arrives ∷ ts) [] a = along p ts [] a
along p (arrives ∷ ts) (f ∷ fs) a = along p ts fs (carried f a)
along p (takes ∷ ts) fs a =
    let out = along p ts fs (receive p a).1 in (and_then (receive p a).0 out.0, out.1)

module _ (p : ℕ) (id : List ℕ) where
  -- The agent has the request `ar` under the id at the address.
  abbrev pub IsAt : AgentState → ActiveRequest → Type 0
  IsAt a ar = (lookup id a.active ≡ some p) × (lookup p a.running ≡ some ar)

  -- If the request is not canceled, what was taken, what waits and what is to come are the frames.
  record Split (ar : ActiveRequest) (fs : List Frame)
      (out : List BodyEvent × (List Frame × AgentState)) : Type 0 where
    last : ActiveRequest
    there : IsAt out.1.1 last
    rest :
        last.canceled ≡ false
        → (ar.canceled ≡ false)
          × (out.0 ++ map body_frame (last.body_ch ++ out.1.0) ≡ map body_frame (ar.body_ch ++ fs))

  abbrev with_request : ActiveRequest → AgentState → AgentState
  with_request ar a = record a { running = insert p ar a.running }

  with_request-IsAt :
      (a : AgentState) (ar ar' : ActiveRequest) → IsAt a ar → IsAt (with_request ar' a) ar'
  with_request-IsAt a ar ar' (named, there) = (named, lookup-insert_self p ar' a.running)

  enqueue-alive :
      (f : Frame) (ar : ActiveRequest) (fs : List Frame)
      → (enqueue f ar).canceled ≡ false
      → (ar.canceled ≡ false) × ((enqueue f ar).body_ch ++ fs ≡ ar.body_ch ++ (f ∷ fs))
  enqueue-alive f ar fs h = elim (Bool-cases (ltb (length ar.body_ch) 16)) [
    | inl room ↦
        let alive : ar.canceled ≡ false = rw room at h in
        (alive, rw room (append_assoc ar.body_ch (f ∷ []) fs))
    | inr full ↦ let dead : true ≡ false = rw full at h in cc
  ]

  carried_lem :
      (f : Frame) (a : AgentState) (ar : ActiveRequest)
      → IsRequestFrame id f
      → IsAt a ar
      → carried f a ≡ with_request (enqueue f ar) a
  unfolding carried dispatch_frame body_frame_of route_body_frame touch
  carried_lem f a ar (v, (request, own)) (named, there) =
      let (bs, encoded, size, decoded) = decode_frame-encode f [] v in
      let whole : decode_frame bs ≡ ok (f, []) = rw append-nil at decoded in
      let is_request : (f.typ == frame_request_body) ≡ true = ground arith in
      let passed : body_frame_of bs ≡ some f = rw (body_frame_of, whole, is_request) in
      let known : lookup f.request_id a.active ≡ some p = ap (λ i. lookup i a.active) own ∙ named in
      let e1 : carried f a ≡ dispatch_frame bs a = rw (carried, encoded) in
      let e2 : dispatch_frame bs a ≡ route_body_frame f a = rw (dispatch_frame, passed) in
      let e3 : route_body_frame f a ≡ touch p (enqueue f) a = rw (route_body_frame, known) in
      let e4 : touch p (enqueue f) a ≡ with_request (enqueue f ar) a = rw (touch, there) in
      e1 ∙ e2 ∙ e3 ∙ e4

  module _ (ts : List Turn) (fs : List Frame)
      (next : (a : AgentState) (ar : ActiveRequest)
        → IsAt a ar
        → Split ar fs (along p ts fs a)) where
    abbrev turn : Option Frame × AgentState → List BodyEvent × (List Frame × AgentState)
    turn (g, a) = let out = along p ts fs a in (and_then g out.0, out.1)

    received-Split :
        (q : List Frame) (a : AgentState) (ar : ActiveRequest)
        → ar.body_ch ≡ q
        → IsAt a ar
        → Split ar fs (turn (received p ar q a))
    received-Split [] a ar e i = next a ar i
    received-Split (g ∷ q) a ar e i =
        let s =
          next (with_request (record ar { body_ch = q }) a) (record ar { body_ch = q })
            (with_request-IsAt a ar (record ar { body_ch = q }) i) in
        record {
          last = s.last;
          there = s.there;
          rest = λ alive.
              let (alive', same) = s.rest alive in
              (
                alive',
                ap (λ evs. body_frame g ∷ evs) same ∙ ap (λ c. map body_frame (c ++ fs)) (sym e),
              );
        }

    takes-Split :
        (a : AgentState) (ar : ActiveRequest) → IsAt a ar → Split ar fs (turn (receive p a))
    unfolding receive
    takes-Split a ar i =
        let e : receive p a ≡ received p ar ar.body_ch a = rw (receive, i.1) in
        subst (λ x. Split ar fs (turn x)) (sym e) (received-Split ar.body_ch a ar refl i)

  along-Split :
      (ts : List Turn) (fs : List Frame) (a : AgentState) (ar : ActiveRequest)
      → All (IsRequestFrame id) fs
      → IsAt a ar
      → Split ar fs (along p ts fs a)
  unfolding along
  along-Split [] fs a ar v i = record { last = ar; there = i; rest = λ alive. (alive, refl) }
  along-Split (arrives ∷ ts) [] a ar v i = along-Split ts [] a ar v i
  along-Split (arrives ∷ ts) (f ∷ fs) a ar (v, vs) i =
      let s =
        along-Split ts fs (with_request (enqueue f ar) a) (enqueue f ar) vs
          (with_request-IsAt a ar (enqueue f ar) i) in
      subst (λ b. Split ar (f ∷ fs) (along p ts fs b)) (sym (carried_lem f a ar v i))
        (record {
          last = s.last;
          there = s.there;
          rest = λ alive.
              let (alive', same) = s.rest alive in
              let (before, joined) = enqueue-alive f ar fs alive' in
              (before, same ∙ ap (map body_frame) joined);
        })
  along-Split (takes ∷ ts) fs a ar v i =
      takes-Split ts fs (λ b br j. along-Split ts fs b br v j) a ar i

-- However the read loop and the request's goroutine take turns, if no timer fires and no context ends,
-- the channel was never full when a frame came, so that the request is not canceled, and all frames have
-- come and were taken, then from the frames that it took the goroutine assembles exactly the body that
-- the relay cut into them, provided that the agent has the request under its id, with the length of the
-- body and nothing received yet.
pub assemble_body-along :
    (p : ℕ) (id body : List ℕ) (ts : List Turn) (a : AgentState) (ar last : ActiveRequest)
    → length id ≡ 16
    → IsAt p id a ar
    → ar.body_len ≡ length body
    → ar.body_ch ≡ []
    → (along p ts (request_frames id body) a).1.0 ≡ []
    → IsAt p id (along p ts (request_frames id body) a).1.1 last
    → last.canceled ≡ false
    → last.body_ch ≡ []
    → assemble_body ar.body_len [] (along p ts (request_frames id body) a).0 ≡ some (ok body)
assemble_body-along p id body ts a ar last h i len empty sent there alive taken =
    let s =
      along-Split p id ts (request_frames id body) a ar (request_frames-IsRequestFrame id body h)
        i in
    let own : s.last ≡ last = some-injective (sym s.there.1 ∙ there.1) in
    let (_, same) = s.rest (ap (λ x. x.canceled) own ∙ alive) in
    let evs = (along p ts (request_frames id body) a).0 in
    let all : evs ≡ map body_frame (request_frames id body) =
      sym (append-nil evs)
      ∙ sym (ap (λ c. evs ++ map body_frame (c ++ [])) (ap (λ x. x.body_ch) own ∙ taken))
      ∙ sym (ap (λ r. evs ++ map body_frame (s.last.body_ch ++ r)) sent)
      ∙ same
      ∙ ap (λ c. map body_frame (c ++ request_frames id body)) empty in
    rw (len, all) (assembled id body)
