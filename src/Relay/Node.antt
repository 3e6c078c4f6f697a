-- ===== src/Relay/Node.antt =====
-- The node of internal/relay/registry.go and its methods. Each method runs under the node's mutex,
-- so it is one step; it takes the node's fields and returns them as it leaves them. Times are
-- milliseconds; what depends on the clock takes the time as an argument.
pub mod Slots
use text.Mathlib.Text.{◌==◌ as str_eq}
use modelrelay.Base.{
  ℕ, ◌+◌, ◌-◌, Bool, true, false, not, ◌&&◌, ◌||◌, String, List, [], ◌∷◌, Option, none, some, ltb,
  leb, ◌==◌, any, lookup, string_eq, length, if◌then◌else◌,
}

pub data NodeState : Type 0 where
  connecting online suspect degraded draining offline : NodeState

pub record ModelCap : Type 0 where
  pub id : String
  pub capabilities : List String
  pub capabilities_complete : Bool
  pub probe_time : ℕ

pub record Node : Type 0 where
  pub id : String
  pub agent_version : String
  pub os : String
  pub arch : String
  pub state : NodeState
  pub max_concurrency : ℕ
  pub models : List (String × ModelCap)
  pub active : ℕ
  pub heartbeat : ℕ
  pub heartbeat_seq : ℕ
  pub connected_at : ℕ
  pub cert_hash : String
  pub cert_serial : String
  pub last_error : String

pub record NodeSnapshot : Type 0 where
  pub id : String
  pub agent_version : String
  pub os : String
  pub arch : String
  pub state : NodeState
  pub max_concurrent : ℕ
  pub active : ℕ
  pub model_count : ℕ
  pub last_heartbeat : ℕ
  pub connected_at : ℕ
  pub cert_hash : String
  pub cert_serial : String
  pub last_error : String

unfoldable pub snapshot : Node → NodeSnapshot
snapshot n = record {
  id = n.id;
  agent_version = n.agent_version;
  os = n.os;
  arch = n.arch;
  state = n.state;
  max_concurrent = n.max_concurrency;
  active = n.active;
  model_count = length n.models;
  last_heartbeat = n.heartbeat;
  connected_at = n.connected_at;
  cert_hash = n.cert_hash;
  cert_serial = n.cert_serial;
  last_error = n.last_error;
}

-- The two states in which a node takes new requests.
abbrev pub is_serving : NodeState → Bool
is_serving online = true
is_serving degraded = true
is_serving _ = false

unfoldable pub is_online : Node → Bool
is_online n = is_serving n.state && ltb n.active n.max_concurrency

unfoldable pub has_capacity : Node → Bool
has_capacity n = ltb n.active n.max_concurrency

abbrev pub supports : Option ModelCap → String → Bool
supports none capability = false
supports (some mc) capability =
    if str_eq capability ""
    then true
    else if not mc.capabilities_complete
    then true
    else any (λ c. str_eq c capability) mc.capabilities

unfoldable pub supports_model : Node → String → String → Bool
supports_model n model capability = supports (lookup model n.models) capability

unfoldable pub reserve : Node → Node × Bool
reserve n =
    if leb n.max_concurrency n.active
    then (n, false)
    else (record n { active = n.active + 1 }, true)

unfoldable pub release : Node → Node
release n = if ltb 0 n.active then record n { active = n.active - 1 } else n

-- `v` is positive or ignored; a negative number is ignored like 0.
unfoldable pub set_max_concurrency : ℕ → Node → Node
set_max_concurrency v n = if ltb 0 v then record n { max_concurrency = v } else n

-- `cloneModels` copies the map: here values are copied anyway.
unfoldable pub set_models : List (String × ModelCap) → Node → Node
set_models models n = record n { models = models }

abbrev heartbeat_state : Bool → NodeState → NodeState
heartbeat_state false online = degraded
heartbeat_state true degraded = online
heartbeat_state true suspect = online
heartbeat_state _ s = s

unfoldable pub mark_heartbeat : ℕ → ℕ → Bool → Node → Node
mark_heartbeat now seq local_ok n = record n {
  heartbeat = now;
  heartbeat_seq = seq;
  state = heartbeat_state local_ok n.state;
}

unfoldable pub model_snapshot : Node → List (String × ModelCap)
model_snapshot n = n.models

unfoldable pub set_state : NodeState → Node → Node
set_state s n = record n { state = s }
