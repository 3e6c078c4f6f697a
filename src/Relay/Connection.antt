-- ===== src/Relay/Connection.antt =====
-- The life of an agent's connection in internal/relay/wss.go: registration, teardown, draining and
-- kicking, over the registry and the connections of the server (connRegistry of server.go). Each
-- handler is a single step here, in any order. In the code it locks the registry, the connections and
-- the node one after the other, and writes to the network in between, so that another handler can come
-- between its calls: a kick between the registration and the put of a connection leaves the connection
-- without its node.
pub mod Ownership
pub mod History
pub mod Steps
pub mod Kept
pub mod Owners
use modelrelay.Base.{
  ℕ, ◌+◌, Bool, true, false, String, List, Option, none, some, ◌==◌, lookup, insert, delete,
  string_eq, if◌then◌else◌, Result, ok, err,
}
use modelrelay.Relay.Node.{
  NodeState, connecting, online, suspect, degraded, draining, offline, Node, set_state, snapshot,
  set_max_concurrency, mark_heartbeat,
}
use modelrelay.Relay.Registry.{Registry, at, try_register, get, remove, remove_if_same}
use modelrelay.Relay.Heartbeat.{monitor_tick}

-- A connection handle is known by the node that it carries.
pub record RelayState : Type 0 where
  pub registry : Registry
  pub conns : List (String × ℕ)
  pub nodes_online : ℕ
  pub nodes_offline : ℕ

-- connRegistry.put, get, del and delIf.
unfoldable pub conns_put : String → ℕ → RelayState → RelayState
conns_put id p s = record s { conns = insert id p s.conns }

unfoldable pub conns_get : RelayState → String → Option ℕ
conns_get s id = lookup id s.conns

unfoldable pub conns_del : String → RelayState → RelayState
conns_del id s = record s { conns = delete id s.conns }

unfoldable pub conns_del_if : String → ℕ → RelayState → RelayState
unfolding conns_del
conns_del_if id p s = elim (lookup id s.conns) [
  | none ↦ s
  | some current ↦ if current == p then conns_del id s else s
]

unfoldable pub set_node_state : ℕ → NodeState → RelayState → RelayState
set_node_state p state s = record s { registry = at p (set_state state) s.registry }

unfoldable pub teardown : ℕ → RelayState → RelayState
unfolding conns_del_if set_node_state
teardown p s =
    let (r, removed) = remove_if_same (s.registry.heap p).id p s.registry in
    if removed
    then (let s' =
          set_node_state p offline
            (conns_del_if (s.registry.heap p).id p (record s { registry = r })) in
        record s' { nodes_offline = s'.nodes_offline + 1 })
    else s

-- `&Node{…}`: the new node takes a fresh address.
unfoldable pub allocate : ℕ → Node → RelayState → RelayState
allocate p n s = record s { registry = at p (λ _. n) s.registry }

-- Steps 4 to 7 of handleConnect for a new node; `acked` tells whether the hello_ack was written.
-- The result tells whether the connection goes on to its read loop.
unfoldable pub accept : ℕ → Node → Bool → RelayState → RelayState × Bool
unfolding allocate conns_put teardown
accept p n acked s =
    let s₁ = allocate p n s in
    let (r, registered) = try_register p s₁.registry in
    let s₂ = conns_put n.id p (record s₁ { registry = r }) in
    if registered
    then (if acked
        then (record s₂ { nodes_online = s₂.nodes_online + 1 }, true)
        else (teardown p s₂, false))
    else (record s₁ { registry = r }, false)

pub data ControlError : Type 0 where
  node_not_found not_drainable not_connected send_failed : ControlError

abbrev pub is_drainable : NodeState → Bool
is_drainable online = true
is_drainable degraded = true
is_drainable suspect = true
is_drainable _ = false

-- sendToNode: `sent` is what the write to an open connection returns.
unfoldable pub send_to_node : RelayState → String → Bool → Result ControlError (Unit {0})
send_to_node s id sent = elim (lookup id s.conns) [
  | none ↦ err not_connected
  | some p ↦ if sent then ok tt else err send_failed
]

unfoldable pub drain_node : String → Bool → RelayState → RelayState × Result ControlError (Unit {0})
unfolding set_node_state send_to_node
drain_node id sent s = elim (get s.registry id) [
  | none ↦ (s, err node_not_found)
  | some p ↦
      if is_drainable (snapshot (s.registry.heap p)).state
      then (set_node_state p draining s, send_to_node s id sent)
      else (s, err not_drainable)
]

-- Both branches of the code remove the node and set it offline; an open connection is told so by a
-- bye, whose failure is ignored, and loses its handle.
unfoldable pub kick_node : String → RelayState → RelayState × Result ControlError (Unit {0})
unfolding set_node_state conns_del
kick_node id s = elim (get s.registry id) [
  | none ↦ (s, err node_not_found)
  | some p ↦
      let removed = record s { registry = remove id s.registry } in
      (
        elim (lookup id s.conns) [
          | none ↦ set_node_state p offline removed
          | some c ↦ set_node_state p offline (conns_del id removed)
        ],
        ok tt,
      )
]

-- What happens to the server, in some order.
pub data Event : Type 0 where
  connects : ℕ → Node → Bool → Event
  disconnects : ℕ → Event
  beats : (p now seq : ℕ) → Bool → Event
  ticks : (p timeout now : ℕ) → Event
  limits : ℕ → ℕ → Event
  drains : String → Bool → Event
  kicks : String → Event

unfoldable pub step : RelayState → Event → RelayState
step s (connects p n acked) = (accept p n acked s).0
step s (disconnects p) = teardown p s
step s (beats p now seq local_ok) = record s {
  registry = at p (mark_heartbeat now seq local_ok) s.registry;
}
step s (ticks p timeout now) = record s {
  registry = at p (λ n. (monitor_tick timeout now n).0) s.registry;
}
step s (limits p v) = record s { registry = at p (set_max_concurrency v) s.registry }
step s (drains id sent) = (drain_node id sent s).0
step s (kicks id) = (kick_node id s).0
