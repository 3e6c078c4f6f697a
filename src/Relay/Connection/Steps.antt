-- ===== src/Relay/Connection/Steps.antt =====
-- The invariant over one step of the server (internal/relay/wss.go).
use modelrelay.Base.{ℕ, ◌≡◌, refl, ◌≢◌, Bool, true, false, arith, string_eq}
use modelrelay.Relay.Node.{offline, Node, set_max_concurrency, mark_heartbeat}
use modelrelay.Relay.Heartbeat.{monitor_tick}
use modelrelay.Relay.Connection.{
  RelayState, Event, connects, disconnects, beats, ticks, limits, drains, kicks, step,
}
use modelrelay.Relay.Connection.Ownership.{Inv, at-Inv}
use modelrelay.Relay.Connection.History.{IsNew, accept-Inv, teardown-Inv, drain-Inv, kick-Inv}

-- A new connection has a new node.
abbrev pub IsAllowed : RelayState → Event → Type 0
IsAllowed s (connects p n acked) = IsNew s p n
IsAllowed s _ = Unit

mark_heartbeat-id :
    (now seq : ℕ) (local_ok : Bool) (n : Node) → (mark_heartbeat now seq local_ok n).id ≡ n.id
unfolding mark_heartbeat
mark_heartbeat-id now seq local_ok n = refl

mark_heartbeat-offline :
    (now seq : ℕ) (local_ok : Bool) (n : Node)
    → (mark_heartbeat now seq local_ok n).state ≡ offline
    → n.state ≡ offline
unfolding mark_heartbeat
mark_heartbeat-offline now seq true n h = ground arith
mark_heartbeat-offline now seq false n h = ground arith

monitor_tick-id : (timeout now : ℕ) (n : Node) → (monitor_tick timeout now n).0.id ≡ n.id
unfolding monitor_tick
monitor_tick-id timeout now n = ground arith

monitor_tick-offline :
    (timeout now : ℕ) (n : Node)
    → n.state ≢ offline
    → (monitor_tick timeout now n).0.state ≢ offline
unfolding monitor_tick
monitor_tick-offline timeout now n h e = ground arith

set_max_concurrency-id : (v : ℕ) (n : Node) → (set_max_concurrency v n).id ≡ n.id
unfolding set_max_concurrency
set_max_concurrency-id v n = ground arith

set_max_concurrency-offline :
    (v : ℕ) (n : Node) → n.state ≢ offline → (set_max_concurrency v n).state ≢ offline
unfolding set_max_concurrency
set_max_concurrency-offline v n h e = ground arith

-- Whatever happens next, every id still leads to a node of that id that is not offline, and the
-- connection that is kept for the id is that node's.
pub step-Inv : (s : RelayState) (e : Event) → IsAllowed s e → Inv s → Inv (step s e)
unfolding step
step-Inv s (connects p n acked) new v = accept-Inv p n s new v acked
step-Inv s (disconnects p) _ v = teardown-Inv p s v
step-Inv s (beats p now seq local_ok) _ v =
    at-Inv p (mark_heartbeat now seq local_ok) s (mark_heartbeat-id now seq local_ok)
      (λ n h. ground (arith, mark_heartbeat-offline now seq local_ok n)) v
step-Inv s (ticks p timeout now) _ v =
    at-Inv p (λ n. (monitor_tick timeout now n).0) s (monitor_tick-id timeout now)
      (monitor_tick-offline timeout now) v
step-Inv s (limits p n) _ v =
    at-Inv p (set_max_concurrency n) s (set_max_concurrency-id n) (set_max_concurrency-offline n) v
step-Inv s (drains id sent) _ v = drain-Inv id sent s v
step-Inv s (kicks id) _ v = kick-Inv id s v
