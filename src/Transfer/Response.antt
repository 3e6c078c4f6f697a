-- ===== src/Transfer/Response.antt =====
-- A response on its way from serveRequest (internal/agent/agent.go) through Encode, DecodeFrame and
-- the channels of the pending request (internal/relay/wss.go) to forwardResponse (proxy.go).
use mathlib.Core.Path.{ap₂}
use modelrelay.Base.{
  ℕ, zero, suc, ◌+◌, ◌≤◌, ◌<◌, ◌≡◌, refl, sym, ap, ◌∙◌, inl, inr, Bool, true, false, not, String,
  List, [], ◌∷◌, ◌++◌, map, Option, none, some, arith, ltb, lt→ltb, length, take, drop,
  length-append, select, All, ok, err, append_assoc, append-nil, Bool-cases, ◌%◌, ◌^◌,
  if◌then◌else◌,
}
use text.Mathlib.Text.{◌==◌ as str_eq}
use modelrelay.Protocol.Frame.{Frame, encode, decode_frame, max_frame_payload}
use modelrelay.Protocol.Frame.RoundTrip.{IsFrame, decode_frame-encode}
use modelrelay.Agent.Response.{
  Message, response_headers, body, done, error, Context, Served, then_send, response_header_names,
  filter_response_headers, serve_request,
}
use modelrelay.Agent.Response.Order.{
  reads, concat_to, sent_frames, body_loop-reads, sent_frames-concat, sent_frames-IsFrame,
}
use modelrelay.Relay.Pending.{queue_capacity, queue_full}
use modelrelay.Relay.Forward.{Answer, Chunk, headers, frame, is_passed_on, forward, start}
use modelrelay.Relay.Forward.Delivery.{taken, concat, sending, forward-in_order}

-- One WebSocket message: what the agent writes for a frame, as the relay reads it.
unfoldable pub arrived : Frame → Option Frame
arrived f = elim (encode f) [
  | err e ↦ none
  | ok message ↦ elim (decode_frame message) [ err e ↦ none | ok (g, rest) ↦ some g ]
]

-- A schedule of forwardResponse for the agent's messages, one of those that its `select` can take: the
-- messages in their order, with no timer and no end of the context, and a client that takes every frame.
-- It takes the first `k` frames one by one, and those after them wait in the channel until the message
-- that ends the request. A frame that finds the channel full fails the request.
unfoldable pub answers : ℕ → List Chunk → List Message → List Answer
answers k queue [] = []
answers k queue (response_headers code hs ∷ ms) = headers code hs ∷ answers k queue ms
answers zero queue (body f ∷ ms) = elim (arrived f) [
  | none ↦ answers zero queue ms
  | some g ↦
      let rest = answers zero (queue ++ (taken g.payload ∷ [])) ms in
      if ltb (length queue) queue_capacity
      then rest
      else Answer.error queue_full.code queue_full.message queue ∷ []
]
answers (suc k) queue (body f ∷ ms) = elim (arrived f) [
  | none ↦ answers (suc k) queue ms
  | some g ↦ frame (taken g.payload) ∷ answers k queue ms
]
answers k queue (done code hs ∷ ms) = Answer.done queue ∷ []
answers k queue (error code message ∷ ms) = Answer.error code message queue ∷ []

arrived_lem : (f : Frame) → IsFrame f → arrived f ≡ some f
unfolding arrived
arrived_lem f v =
    let (bs, encoded, size, decoded) = decode_frame-encode f [] v in
    let whole : decode_frame bs ≡ ok (f, []) = rw append-nil at decoded in
    ground (arith, encoded, whole)

abbrev payloads : List Frame → List (List ℕ)
payloads fs = map (λ f. f.payload) fs

answers-queued :
    (queue : List Chunk) (fs : List Frame) (code : ℕ) (hs : List (String × String))
    → All IsFrame fs
    → length queue + length fs ≤ queue_capacity
    → answers zero queue (map body fs ++ (done code hs ∷ []))
      ≡ Answer.done (queue ++ map taken (payloads fs)) ∷ []
unfolding answers
answers-queued queue [] code hs v h = ap (λ q. Answer.done q ∷ []) (sym (append-nil queue))
answers-queued queue (f ∷ fs) code hs v h =
    rw
      (
        answers,
        arrived_lem f v.0,
        lt→ltb (length queue) queue_capacity (omega (arith, h)),
        answers-queued (queue ++ (taken f.payload ∷ [])) fs code hs v.1
            (omega (arith, h, length-append queue (taken f.payload ∷ []))),
        append_assoc queue (taken f.payload ∷ []) (map taken (payloads fs)),
      )
      refl

answers-frames :
    (k : ℕ) (fs : List Frame) (code : ℕ) (hs : List (String × String))
    → All IsFrame fs
    → length fs ≤ k + queue_capacity
    → answers k [] (map body fs ++ (done code hs ∷ []))
      ≡ map (λ p. frame (taken p)) (take k (payloads fs))
        ++ (Answer.done (map taken (drop k (payloads fs))) ∷ [])
unfolding answers
answers-frames zero fs code hs v h = answers-queued [] fs code hs v (omega (arith, h))
answers-frames (suc k) [] code hs v h = refl
answers-frames (suc k) (f ∷ fs) code hs v h =
    rw (answers, arrived_lem f v.0, answers-frames k fs code hs v.1 (omega (arith, h))) refl

length-sent_frames :
    (id16 : List ℕ) (first : Bool) (seq : ℕ) (cs : List (List ℕ)) (q : List ℕ)
    → length (sent_frames id16 first seq cs q) ≤ suc (length cs)
unfolding sent_frames
length-sent_frames id16 first seq [] [] = omega arith
length-sent_frames id16 first seq [] (b ∷ bs) = omega arith
length-sent_frames id16 first seq ([] ∷ cs) q =
    omega (arith, length-sent_frames id16 first seq cs q)
length-sent_frames id16 first seq ((b ∷ bs) ∷ cs) q =
    omega (arith, length-sent_frames id16 false ((seq + 1) % 2 ^ 32) cs q)

concat-split :
    (k : ℕ) (ps : List (List ℕ)) → concat (take k ps) ++ concat (drop k ps) ≡ concat_to ps []
concat-split zero [] = refl
concat-split zero (p ∷ ps) = ap (λ t. p ++ t) (concat-split zero ps)
concat-split (suc k) [] = refl
concat-split (suc k) (p ∷ ps) =
    append_assoc p (concat (take k ps)) (concat (drop k ps)) ∙ ap (λ t. p ++ t) (concat-split k ps)

select-select :
    (p q : String × String → Bool) (xs : List (String × String))
    → All (λ e. p e ≡ true → q e ≡ true) xs
    → select q (select p xs) ≡ select p xs
select-select p q [] h = refl
select-select p q (e ∷ xs) h = elim (Bool-cases (p e)) [
  | inl named ↦ rw (named, h.0 named, select-select p q xs h.1) refl
  | inr unnamed ↦ rw (unnamed, select-select p q xs h.1) refl
]

-- The agent passes on only what the relay passes on.
passed_on :
    (header : String → String)
    → select is_passed_on (filter_response_headers header) ≡ filter_response_headers header
unfolding filter_response_headers
passed_on header =
    select-select (λ e. not (str_eq e.1 "")) is_passed_on
      (map (λ k. (k, header k)) response_header_names)
      (λ h. rw h refl, (λ h. rw h refl, (λ h. rw h refl, (λ h. rw h refl, (λ h. rw h refl, tt)))))

forward-answers :
    (error_body : String → String → List ℕ) (ttft idle : Bool) (status : ℕ)
    (hs : List (String × String)) (fs : List Frame) (k : ℕ)
    → 200 ≤ status
    → status ≤ 999
    → All IsFrame fs
    → length fs ≤ k + queue_capacity
    → forward error_body
        (start ttft idle)
        (answers k [] (response_headers status hs ∷ (map body fs ++ (done status hs ∷ []))))
      ≡ (
        record (sending error_body ttft idle status hs (concat_to (payloads fs) [])) {
          success = 1;
        },
        true,
      )
unfolding answers
forward-answers error_body ttft idle status hs fs k final known v room =
    ap (λ es. forward error_body (start ttft idle) (headers status hs ∷ es))
      (answers-frames k fs status hs v room)
    ∙ forward-in_order error_body ttft idle status hs (take k (payloads fs)) (drop k (payloads fs))
        final known
    ∙ ap (λ b. (record (sending error_body ttft idle status hs b) { success = 1 }, true))
        (concat-split k (payloads fs))

-- A response arrives: when the local server answers with a status from 200 to 999 and ends its body
-- properly, every write of the agent succeeds, and forwardResponse takes the headers first, then the
-- frames in order, no timer or end of the context, and the agent's Done last, when at most 16 frames
-- wait, and the client takes every frame, then the client gets exactly that status, the headers on the
-- agent's list and the whole body in order, however the server's reads cut it; the agent and the relay
-- each count one success.
pub forward-serve_request :
    (error_body : String → String → List ℕ) (ttft idle : Bool) (id16 : List ℕ) (ctx : Context)
    (request : List ℕ) (status : ℕ) (header : String → String) (cs : List (List ℕ)) (q : List ℕ)
    (k : ℕ)
    → 200 ≤ status
    → status ≤ 999
    → length id16 ≡ 16
    → All (λ c. length c ≤ max_frame_payload) cs
    → length q ≤ max_frame_payload
    → length cs < k + queue_capacity
    → (r : Served) × (serve_request id16 ctx
          (ok request)
          none
          (ok (record { status = status; header = header; reads = reads cs q }))
          []
        ≡ some r)
      × (let (f, returned) = forward error_body (start ttft idle) (answers k [] r.sent) in
          (returned ≡ true)
          × (f.client ≡ record {
            status = some status;
            headers = filter_response_headers header;
            body = concat_to cs q;
          })
          × (f.success ≡ 1))
      × (r.requests_ok ≡ 1)
unfolding serve_request then_send sending
forward-serve_request error_body ttft idle id16 ctx request status header cs q k final known id h
      last room =
    let hdr = filter_response_headers header in
    let fs = sent_frames id16 true 0 cs q in
    let done_all =
      forward-answers error_body ttft idle status hdr fs k final known
        (sent_frames-IsFrame id16 true 0 cs q id h last)
        (omega (arith, room, length-sent_frames id16 true 0 cs q)) in
    (
      record {
        sent = response_headers status hdr ∷ (map body fs ++ (done status hdr ∷ []));
        requests_ok = 1;
        requests_failed = 0;
      },
      rw (body_loop-reads id16 status hdr ctx true 0 cs q h last) refl,
      (
        ap (λ p. p.1) done_all,
        ap (λ p. p.0.client) done_all
            ∙ ap₂ (λ hs b. record { status = some status; headers = hs; body = b })
                (passed_on header) (sent_frames-concat id16 true 0 cs q),
        ap (λ p. p.0.success) done_all,
      ),
      refl,
    )
