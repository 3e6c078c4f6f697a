-- ===== src/Agent/Requests/Slots.antt =====
-- The local concurrency limit (internal/agent/agent.go).
use modelrelay.Base.{
  ℕ, ◌≤◌, ◌≡◌, sym, ◌∙◌, inl, inr, false, not, List, [], ◌∷◌, Option, none, some, arith, ltb, leb,
  lookup, nat_eq, byte_list_eq, length, if-cases, IsMap, insert-IsMap, map, delete-IsMap,
  length-insert, length-delete, Option-cases,
}
use modelrelay.Protocol.RequestId.{request_id_bytes}
use modelrelay.Protocol.Path.{is_allowed_path}
use modelrelay.Protocol.Frame.{Frame}
use modelrelay.Agent.Requests.{
  Request, ActiveRequest, Stats, take_slot, AgentState, Refusal, count_total, count_failed,
  count_busy, admit, handle_request, finish, touch, cancel, enqueue, route_body_frame,
  count_canceled, cancel_request, cancel_each, cancel_all, enter_drain,
}

-- One token of the channel for each running request, and never more than the limit.
pub record IsBounded (max_concurrency : ℕ) (a : AgentState) : Type 0 where
  pub keyed : IsMap a.running
  pub counted : a.local_sem ≡ length a.running
  pub bounded : a.local_sem ≤ max_concurrency

-- What happens to an agent, in some order.
pub data AgentEvent : Type 0 where
  requested : ℕ → Request → AgentEvent
  finished : ℕ → AgentEvent
  body_arrives : Frame → AgentEvent
  cancels : List ℕ → AgentEvent
  disconnected : AgentEvent
  drains : AgentEvent

module _ (sha256 : List ℕ → List ℕ) (max_body_bytes max_concurrency : ℕ) where
  unfoldable pub agent_step : AgentState → AgentEvent → AgentState
  agent_step a (requested p req) = (handle_request sha256 max_body_bytes max_concurrency p req a).0
  agent_step a (finished p) = finish p a
  agent_step a (body_arrives f) = route_body_frame f a
  agent_step a (cancels id) = cancel_request sha256 id a
  agent_step a disconnected = cancel_all sha256 a
  agent_step a drains = enter_drain a

  -- A new request has an address at which none is running.
  abbrev pub IsFresh : AgentState → AgentEvent → Type 0
  IsFresh a (requested p req) = lookup p a.running ≡ none
  IsFresh a _ = Unit

  admit-IsBounded :
      (p : ℕ) (req : Request) (len : ℕ) (a : AgentState)
      → lookup p a.running ≡ none
      → leb max_concurrency a.local_sem ≡ false
      → IsBounded max_concurrency a
      → IsBounded max_concurrency (admit sha256 max_body_bytes max_concurrency p req len a)
  unfolding admit
  admit-IsBounded p req len a fresh room v = record {
    keyed = (fresh, v.keyed);
    counted = omega (arith, v.counted);
    bounded = ground (arith, v.bounded);
  }

  After : AgentState × Option Refusal → Type 0
  After answer = IsBounded max_concurrency answer.0

  -- The counters do not matter.
  counters :
      {a : AgentState} {stats : Stats}
      → IsBounded max_concurrency a
      → IsBounded max_concurrency (record a { stats = stats })
  counters v = record { keyed = v.keyed; counted = v.counted; bounded = v.bounded }

  take_slot-IsBounded :
      (p : ℕ) (req : Request) (o : Option ℕ) (a : AgentState)
      → lookup p a.running ≡ none
      → IsBounded max_concurrency a
      → After (take_slot sha256 max_body_bytes max_concurrency p req o a)
  unfolding take_slot count_failed count_busy After
  take_slot-IsBounded p req none a fresh v = counters v
  take_slot-IsBounded p req (some len) a fresh v =
      if-cases After (ltb max_body_bytes len) (λ _. counters v)
        λ _.
          if-cases After a.draining (λ _. counters v)
            λ _.
              if-cases After (leb max_concurrency a.local_sem) (λ _. counters v)
                λ room. admit-IsBounded p req len a fresh room v

  handle_request-IsBounded :
      (p : ℕ) (req : Request) (a : AgentState)
      → lookup p a.running ≡ none
      → IsBounded max_concurrency a
      → IsBounded max_concurrency (handle_request sha256 max_body_bytes max_concurrency p req a).0
  unfolding handle_request count_failed count_total After
  handle_request-IsBounded p req a fresh v =
      if-cases After (not (is_allowed_path req.method req.path)) (λ _. counters v)
        (λ _. take_slot-IsBounded p req req.body_len (count_total a) fresh (counters v))

  touch-IsBounded :
      (p : ℕ) (f : ActiveRequest → ActiveRequest) (a : AgentState)
      → IsBounded max_concurrency a
      → IsBounded max_concurrency (touch p f a)
  unfolding touch
  touch-IsBounded p f a v = elim (Option-cases (lookup p a.running)) [
    | inl gone ↦ rw (touch, gone) v
    | inr (ar, found) ↦
        rw (touch, found)
          (record {
            keyed = insert-IsMap p (f ar) a.running v.keyed;
            counted = v.counted ∙ sym (length-insert p (f ar) ar a.running found);
            bounded = v.bounded;
          })
  ]

  finish-IsBounded :
      (p : ℕ) (a : AgentState)
      → IsBounded max_concurrency a
      → IsBounded max_concurrency (finish p a)
  unfolding finish
  finish-IsBounded p a v = elim (Option-cases (lookup p a.running)) [
    | inl gone ↦ rw (finish, gone) v
    | inr (ar, found) ↦
        rw (finish, found)
          (record {
            keyed = delete-IsMap p a.running v.keyed;
            counted = omega (arith, v.counted, length-delete p ar a.running v.keyed found);
            bounded = omega (arith, v.bounded);
          })
  ]

  route_body_frame-IsBounded :
      (f : Frame) (a : AgentState)
      → IsBounded max_concurrency a
      → IsBounded max_concurrency (route_body_frame f a)
  unfolding route_body_frame
  route_body_frame-IsBounded f a v = elim (Option-cases (lookup f.request_id a.active)) [
    | inl unknown ↦ rw (route_body_frame, unknown) v
    | inr (p, found) ↦ rw (route_body_frame, found) (touch-IsBounded p (enqueue f) a v)
  ]

  cancel_request-IsBounded :
      (id : List ℕ) (a : AgentState)
      → IsBounded max_concurrency a
      → IsBounded max_concurrency (cancel_request sha256 id a)
  unfolding cancel_request count_canceled
  cancel_request-IsBounded id a v =
      elim (Option-cases (lookup (request_id_bytes sha256 id) a.active)) [
        | inl unknown ↦ rw (cancel_request, unknown) v
        | inr (p, found) ↦ rw (cancel_request, found) (touch-IsBounded p cancel _ (counters v))
      ]

  cancel_each-IsBounded :
      (ids : List (List ℕ)) (a : AgentState)
      → IsBounded max_concurrency a
      → IsBounded max_concurrency (cancel_each sha256 ids a)
  unfolding cancel_each
  cancel_each-IsBounded [] a v = v
  cancel_each-IsBounded (id ∷ ids) a v =
      cancel_each-IsBounded ids (cancel_request sha256 id a) (cancel_request-IsBounded id a v)

  agent_step-IsBounded :
      (a : AgentState) (e : AgentEvent)
      → IsFresh a e
      → IsBounded max_concurrency a
      → IsBounded max_concurrency (agent_step a e)
  unfolding agent_step cancel_all enter_drain
  agent_step-IsBounded a (requested p req) fresh v = handle_request-IsBounded p req a fresh v
  agent_step-IsBounded a (finished p) _ v = finish-IsBounded p a v
  agent_step-IsBounded a (body_arrives f) _ v = route_body_frame-IsBounded f a v
  agent_step-IsBounded a (cancels id) _ v = cancel_request-IsBounded id a v
  agent_step-IsBounded a disconnected _ v = cancel_each-IsBounded (map (λ e. e.0) a.active) a v
  agent_step-IsBounded a drains _ v = record {
    keyed = v.keyed;
    counted = v.counted;
    bounded = v.bounded;
  }

  unfoldable pub agent_run : AgentState → List AgentEvent → AgentState
  unfolding agent_step
  agent_run a [] = a
  agent_run a (e ∷ es) = agent_run (agent_step a e) es

  abbrev pub AreFresh : AgentState → List AgentEvent → Type 0
  AreFresh a [] = Unit
  AreFresh a (e ∷ es) = IsFresh a e × AreFresh (agent_step a e) es

  -- From a consistent state, in any order of requests at fresh addresses, body frames, cancellations,
  -- disconnections, drains and ends of requests, the semaphore holds one token for each running
  -- request, and at most the configured number.
  pub agent_run-IsBounded :
      (a : AgentState) (es : List AgentEvent)
      → AreFresh a es
      → IsBounded max_concurrency a
      → IsBounded max_concurrency (agent_run a es)
  unfolding agent_run
  agent_run-IsBounded a [] fresh v = v
  agent_run-IsBounded a (e ∷ es) fresh v =
      agent_run-IsBounded (agent_step a e) es fresh.1 (agent_step-IsBounded a e fresh.0 v)
