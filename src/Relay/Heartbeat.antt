-- ===== src/Relay/Heartbeat.antt =====
-- heartbeatSeconds and heartbeatMonitor of internal/relay/wss.go. Times are milliseconds.
use modelrelay.Base.{
  ℕ, ◌-◌, ◌*◌, ◌/◌, ◌≤◌, ◌<◌, ◌≡◌, Bool, true, false, not, ◌&&◌, arith, ltb, if◌then◌else◌,
}
use modelrelay.Relay.Node.{
  NodeState, suspect, draining, Node, mark_heartbeat, set_state, is_serving,
}

-- The interval of the ticker, in seconds.
unfoldable pub heartbeat_seconds : ℕ → ℕ
heartbeat_seconds timeout_s = if ltb (timeout_s / 3) 5 then 5 else timeout_s / 3

pub data TickResult : Type 0 where
  closes marks_suspect stays : TickResult

abbrev is_suspect : NodeState → Bool
is_suspect suspect = true
is_suspect _ = false

-- One tick: the node as it leaves it, and what it did. Closing ends the monitor.
unfoldable pub monitor_tick : ℕ → ℕ → Node → Node × TickResult
unfolding set_state
monitor_tick timeout now n =
    let age = now - n.heartbeat in
    if ltb (2 * timeout) age
    then (n, closes)
    else if ltb timeout age && not (is_suspect n.state)
    then (set_state suspect n, marks_suspect)
    else (n, stays)

-- What a tick does, for every age of the last heartbeat.
pub record Monitored (timeout now : ℕ) (n : Node) (n' : Node) (res : TickResult) : Type 0 where
  pub silent_too_long : 2 * timeout < now - n.heartbeat → (res ≡ closes) × (n' ≡ n)
  pub silent :
      timeout < now - n.heartbeat
      → now - n.heartbeat ≤ 2 * timeout
      → n' ≡ record n { state = suspect }
  pub heard : now - n.heartbeat ≤ timeout → (res ≡ stays) × (n' ≡ n)

-- A tick closes the connection exactly after twice the timeout, marks the node suspect after the
-- timeout, and leaves a node that was heard of within the timeout alone.
monitor_tick-Monitored :
    (timeout now : ℕ) (n : Node)
    → Monitored timeout now n (monitor_tick timeout now n).0 (monitor_tick timeout now n).1
unfolding monitor_tick
monitor_tick-Monitored timeout now n = record {
  silent_too_long = λ h. ground arith;
  silent = λ h k. ground arith;
  heard = λ h. ground arith;
}

-- A node that was asked to drain serves again after one missed heartbeat: if it is silent for
-- longer than the timeout, the next tick makes it suspect, and a healthy heartbeat makes it online.
pub mark_heartbeat-monitor_tick_draining :
    (timeout now later seq : ℕ) (n : Node)
    → n.state ≡ draining
    → timeout < now - n.heartbeat
    → now - n.heartbeat ≤ 2 * timeout
    → is_serving (mark_heartbeat later seq true (monitor_tick timeout now n).0).state ≡ true
unfolding monitor_tick mark_heartbeat
mark_heartbeat-monitor_tick_draining timeout now later seq n drained silent open_still =
    ground arith
