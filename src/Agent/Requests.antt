-- ===== src/Agent/Requests.antt =====
-- The requests of internal/agent/agent.go: admission (handleRequest), the way of a body frame
-- (routeBodyFrame), the end of serveRequest, and cancellation. An active request is shared by the
-- map and its goroutine, so it has an address; a text is the list of its bytes. The goroutine's own
-- work between its start and its end is assemble_body and what the local server answers.
pub mod Slots
pub mod Cancellation
use modelrelay.Base.{
  ℕ, ◌+◌, ◌-◌, Bool, true, false, not, String, List, [], ◌∷◌, ◌++◌, map, Option, none, some, ltb,
  leb, lookup, insert, delete, nat_eq, byte_list_eq, length, if◌then◌else◌,
}
use modelrelay.Protocol.Frame.{Frame}
use modelrelay.Protocol.Path.{is_allowed_path}
use modelrelay.Agent.Body.{body_frame_of}
use modelrelay.Protocol.RequestId.{request_id_bytes}

-- protocol.Request; a negative body length is `none`.
pub record Request : Type 0 where
  pub request_id : List ℕ
  pub method : String
  pub path : String
  pub body_len : Option ℕ

-- `canceled`: the context; `body_ch`: the frames in the buffered channel.
pub record ActiveRequest : Type 0 where
  pub req_id : List ℕ
  pub id16 : List ℕ
  pub body_len : ℕ
  pub body_ch : List Frame
  pub canceled : Bool

pub record Stats : Type 0 where
  pub requests_total : ℕ
  pub requests_failed : ℕ
  pub local_busy_total : ℕ
  pub canceled_total : ℕ

-- `running` holds the requests whose goroutine has not ended, by address; `local_sem` is the number
-- of tokens in the channel.
pub record AgentState : Type 0 where
  pub running : List (ℕ × ActiveRequest)
  pub active : List (List ℕ × ℕ)
  pub draining : Bool
  pub local_sem : ℕ
  pub stats : Stats

pub data Refusal : Type 0 where
  invalid_request body_too_large draining local_busy : Refusal

unfoldable pub count_total : AgentState → AgentState
count_total a = record a { stats = record a.stats { requests_total = a.stats.requests_total + 1 } }

unfoldable pub count_failed : AgentState → AgentState
count_failed a = record a {
  stats = record a.stats { requests_failed = a.stats.requests_failed + 1 };
}

unfoldable pub count_busy : AgentState → AgentState
count_busy a = record a {
  stats = record a.stats { local_busy_total = a.stats.local_busy_total + 1 };
}

module _ (sha256 : List ℕ → List ℕ) (max_body_bytes max_concurrency : ℕ) where
  -- The goroutine starts; `p` is the address of the new request.
  unfoldable pub admit : ℕ → Request → ℕ → AgentState → AgentState
  unfolding request_id_bytes
  admit p req len a = record a {
    running =
        (
          p,
          record {
            req_id = req.request_id;
            id16 = request_id_bytes sha256 req.request_id;
            body_len = len;
            body_ch = [];
            canceled = false;
          },
        )
        ∷ a.running;
    active = insert (request_id_bytes sha256 req.request_id) p a.active;
    local_sem = a.local_sem + 1;
  }

  -- From the check of the declared length on; `a` has the request counted.
  unfoldable pub take_slot : ℕ → Request → Option ℕ → AgentState → AgentState × Option Refusal
  unfolding count_failed count_busy admit
  take_slot p req none a = (count_failed a, some body_too_large)
  take_slot p req (some len) a =
      if ltb max_body_bytes len
      then (count_failed a, some body_too_large)
      else if a.draining
      then (count_failed a, some Refusal.draining)
      else if leb max_concurrency a.local_sem
      then (count_failed (count_busy a), some local_busy)
      else (admit p req len a, none)

  -- handleRequest, with the code of the error that it writes.
  unfoldable pub handle_request : ℕ → Request → AgentState → AgentState × Option Refusal
  unfolding count_total count_failed take_slot
  handle_request p req a =
      if not (is_allowed_path req.method req.path)
      then (count_failed (count_total a), some invalid_request)
      else take_slot p req req.body_len (count_total a)

-- The deferred end of serveRequest.
unfoldable pub finish : ℕ → AgentState → AgentState
finish p a = elim (lookup p a.running) [
  | none ↦ a
  | some ar ↦ record a {
    running = delete p a.running;
    active = delete ar.id16 a.active;
    local_sem = a.local_sem - 1;
  }
]

-- A change of the request at an address, while its goroutine runs.
unfoldable pub touch : ℕ → (ActiveRequest → ActiveRequest) → AgentState → AgentState
touch p f a = elim (lookup p a.running) [
  | none ↦ a
  | some ar ↦ record a { running = insert p (f ar) a.running }
]

abbrev pub cancel : ActiveRequest → ActiveRequest
cancel ar = record ar { canceled = true }

-- The channel holds 16 frames; a frame that finds it full cancels the request.
abbrev pub enqueue : Frame → ActiveRequest → ActiveRequest
enqueue f ar =
    if ltb (length ar.body_ch) 16 then record ar { body_ch = ar.body_ch ++ (f ∷ []) } else cancel ar

unfoldable pub route_body_frame : Frame → AgentState → AgentState
unfolding touch
route_body_frame f a = elim (lookup f.request_id a.active) [
  | none ↦ a
  | some p ↦ touch p (enqueue f) a
]

-- dispatchFrame of connector.go.
unfoldable pub dispatch_frame : List ℕ → AgentState → AgentState
unfolding body_frame_of route_body_frame
dispatch_frame message a = elim (body_frame_of message) [ none ↦ a | some f ↦ route_body_frame f a ]

-- What assembleBody receives from the channel of the request at an address; `none` while it waits.
abbrev pub received : ℕ → ActiveRequest → List Frame → AgentState → Option Frame × AgentState
received p ar [] a = (none, a)
received p ar (f ∷ fs) a =
    (some f, record a { running = insert p (record ar { body_ch = fs }) a.running })

unfoldable pub receive : ℕ → AgentState → Option Frame × AgentState
receive p a = elim (lookup p a.running) [ none ↦ (none, a) | some ar ↦ received p ar ar.body_ch a ]

unfoldable pub count_canceled : AgentState → AgentState
count_canceled a = record a {
  stats = record a.stats { canceled_total = a.stats.canceled_total + 1 };
}

module _ (sha256 : List ℕ → List ℕ) where
  unfoldable pub cancel_request : List ℕ → AgentState → AgentState
  unfolding touch count_canceled request_id_bytes
  cancel_request req_id a = elim (lookup (request_id_bytes sha256 req_id) a.active) [
    | none ↦ a
    | some p ↦ touch p cancel (count_canceled a)
  ]

  unfoldable pub cancel_each : List (List ℕ) → AgentState → AgentState
  unfolding cancel_request
  cancel_each [] a = a
  cancel_each (id ∷ ids) a = cancel_each ids (cancel_request id a)

  -- cancelAll passes the keys of the map, as texts, to cancelRequest.
  unfoldable pub cancel_all : AgentState → AgentState
  unfolding cancel_each
  cancel_all a = cancel_each (map (λ e. e.0) a.active) a

unfoldable pub enter_drain : AgentState → AgentState
enter_drain a = record a { draining = true }

unfoldable pub active_count : AgentState → ℕ
active_count a = length a.active

-- waitForDrain: each poll sees the requests of that time; `expired` tells that the timer fires before
-- the next tick. `none` means that it still waits.
pub record DrainPoll : Type 0 where
  pub agent : AgentState
  pub expired : Bool

unfoldable pub wait_for_drain : (List ℕ → List ℕ) → List DrainPoll → Option (AgentState × ℕ)
unfolding cancel_all active_count
wait_for_drain sha256 [] = none
wait_for_drain sha256 (p ∷ ps) =
    let rest = wait_for_drain sha256 ps in
    let canceled = cancel_all sha256 p.agent in
    if ltb 0 (active_count p.agent)
    then (if p.expired then some (canceled, active_count canceled) else rest)
    else some (p.agent, 0)
