-- ===== src/Relay/Pending.antt =====
-- The requests in progress at the relay: pendingRegistry of internal/relay/server.go, and what
-- dispatchControl and dispatchFrame of wss.go do with the messages of an agent. A request stands in
-- the map from its registration to the return of handleProxy, which alone reads its channels.
pub mod Isolation
use modelrelay.Base.{
  ℕ, ◌+◌, Bool, true, false, not, String, List, [], ◌∷◌, ◌++◌, Option, none, some, ltb, length,
  lookup, insert, delete, string_eq, byte_list_eq, if◌then◌else◌,
}
use modelrelay.Protocol.Frame.{Frame}
use modelrelay.Protocol.RequestId.{request_id_bytes}
use modelrelay.Relay.Node.{Node, mark_heartbeat, set_models}
use modelrelay.Relay.Handshake.{ModelInfo, models_of}
use modelrelay.Relay.Registry.{Registry, at}

pub record ResponseHeaders : Type 0 where
  pub status_code : ℕ
  pub headers : List (String × String)

pub record AgentError : Type 0 where
  pub code : String
  pub message : String

-- The channels: `frames` holds 16 frames, the others one message each. `done` tells whether the
-- agent's done is in its channel.
pub record PendingRequest : Type 0 where
  pub request_id : List ℕ
  pub node_id : String
  pub frames : List Frame
  pub headers : Option ResponseHeaders
  pub done : Bool
  pub error : Option AgentError

unfoldable pub new_pending_request : List ℕ → String → PendingRequest
new_pending_request request_id node_id = record {
  request_id = request_id;
  node_id = node_id;
  frames = [];
  headers = none;
  done = false;
  error = none;
}

abbrev pub PendingRegistry : Type 0
PendingRegistry = List (List ℕ × PendingRequest)

unfoldable pub add : List ℕ → PendingRequest → PendingRegistry → PendingRegistry
add key req m = insert key req m

unfoldable pub remove : List ℕ → PendingRegistry → PendingRegistry
remove key m = delete key m

-- What dispatchControl reads, after encoding/json: `unreadable` is a known type with a body that
-- does not decode, `unhandled` a type that it has no case for.
pub data ControlMessage : Type 0 where
  heartbeat : ℕ → Bool → ControlMessage
  response_headers : List ℕ → ResponseHeaders → ControlMessage
  done : List ℕ → ControlMessage
  error : List ℕ → AgentError → ControlMessage
  models_update : List ModelInfo → ControlMessage
  drain_ack bye unreadable unhandled : ControlMessage

-- The relay as the read loop of one connection sees it; `cancels` are the ids of the requests for
-- which it sent a cancel to this node.
pub record Dispatch : Type 0 where
  pub registry : Registry
  pub pending : PendingRegistry
  pub cancels : List (List ℕ)

unfoldable pub pending_owned_by : String → List ℕ → PendingRegistry → Option PendingRequest
pending_owned_by node_id key m = elim (lookup key m) [
  | none ↦ none
  | some p ↦ if string_eq.eqb p.node_id node_id then some p else none
]

-- A send that does not wait: what is in the channel stays.
abbrev pub offer {ℓ} : {A : Type ℓ} → Option A → A → Option A
offer none a = some a
offer (some b) a = some b

abbrev pub queue_capacity : ℕ
queue_capacity = 16

-- A change of the request that the node owns under the key.
unfoldable pub update_owned :
    String → List ℕ → (PendingRequest → PendingRequest) → PendingRegistry → PendingRegistry
unfolding pending_owned_by
update_owned node_id key f m = elim (pending_owned_by node_id key m) [
  | none ↦ m
  | some p ↦ insert key (f p) m
]

abbrev pub queue_full : AgentError
queue_full = record { code = "internal_error"; message = "relay response buffer full" }

-- A frame that finds the queue full is dropped, and the request is told that it fails.
abbrev pub receive : Frame → PendingRequest → PendingRequest
receive f p =
    if ltb (length p.frames) queue_capacity
    then record p { frames = p.frames ++ (f ∷ []) }
    else record p { error = offer p.error queue_full }

unfoldable pub dispatch_frame : String → Frame → Dispatch → Dispatch
unfolding pending_owned_by
dispatch_frame node_id f d = elim (pending_owned_by node_id f.request_id d.pending) [
  | none ↦ d
  | some p ↦ record d {
    pending = insert f.request_id (receive f p) d.pending;
    cancels =
        if ltb (length p.frames) queue_capacity
        then d.cancels
        else d.cancels ++ (p.request_id ∷ []);
  }
]

-- What the read loop receives: a control message or a frame that decoded, a message that is
-- neither, or what ends it, an error or a control message over the limit.
pub data Incoming : Type 0 where
  text : ℕ → ControlMessage → Incoming
  binary : Frame → Incoming
  bad ended : Incoming

module _ (sha256 : List ℕ → List ℕ) where
  -- `now` is the clock and `p` the address of the connection's node; the result tells whether the
  -- read loop goes on.
  unfoldable pub dispatch_control : ℕ → ℕ → String → ControlMessage → Dispatch → Dispatch × Bool
  unfolding update_owned request_id_bytes
  dispatch_control now p node_id (heartbeat seq local_ok) d =
      (record d { registry = at p (mark_heartbeat now seq local_ok) d.registry }, true)
  dispatch_control now p node_id (response_headers id rh) d = (
    record d {
      pending =
          update_owned node_id (request_id_bytes sha256 id)
            (λ q. record q { headers = offer q.headers rh }) d.pending;
    },
    true,
  )
  dispatch_control now p node_id (done id) d = (
    record d {
      pending =
          update_owned node_id (request_id_bytes sha256 id) (λ q. record q { done = true })
            d.pending;
    },
    true,
  )
  dispatch_control now p node_id (error id e) d = (
    record d {
      pending =
          update_owned node_id (request_id_bytes sha256 id)
            (λ q. record q { error = offer q.error e }) d.pending;
    },
    true,
  )
  dispatch_control now p node_id (models_update models) d =
      (record d { registry = at p (set_models (models_of now models [])) d.registry }, true)
  dispatch_control now p node_id drain_ack d = (d, true)
  dispatch_control now p node_id bye d = (d, false)
  dispatch_control now p node_id unreadable d = (d, true)
  dispatch_control now p node_id unhandled d = (d, true)

  unfoldable pub receive_one : ℕ → String → Incoming → Dispatch → Dispatch × Bool
  unfolding dispatch_control dispatch_frame
  receive_one p node_id (text now m) d = dispatch_control now p node_id m d
  receive_one p node_id (binary f) d = (dispatch_frame node_id f d, true)
  receive_one p node_id bad d = (d, true)
  receive_one p node_id ended d = (d, false)

  -- The read loop on what arrives, until it ends or waits.
  unfoldable pub read_loop : ℕ → String → List Incoming → Dispatch → Dispatch
  unfolding receive_one
  read_loop p node_id [] d = d
  read_loop p node_id (m ∷ ms) d =
      let (d', goes_on) = receive_one p node_id m d in
      let rest = read_loop p node_id ms d' in if goes_on then rest else d'
