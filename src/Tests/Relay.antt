-- ===== src/Tests/Relay.antt =====
-- The theorems on the relay's nodes, registry, scheduler and connections at concrete inputs.
use modelrelay.Base.{
  ℕ, ◌*◌, ◌/◌, ◌≡◌, refl, true, false, List, [], ◌∷◌, arith, Result, ok, err, some, ltb, IsMap,
  string_eq, lookup,
}
use modelrelay.Relay.Node.{
  Node, draining, is_serving, supports_model, has_capacity, mark_heartbeat, snapshot,
}
use modelrelay.Relay.Node.Slots.{
  reserves, releases, limits, slot_run, IsCounted, slot_run-IsCounted,
}
use modelrelay.Relay.Registry.{Registry, get, list, sort_by, insert_sorted}
use modelrelay.Relay.Registry.Identity.{IsKeyed}
use modelrelay.Relay.Heartbeat.{monitor_tick, mark_heartbeat-monitor_tick_draining}
use modelrelay.Relay.Scheduler.{
  Float64, capability_not_supported, all_nodes_busy, load, least_loaded, choose, select_node,
  candidates, candidates_in, candidate_of,
}
use modelrelay.Relay.Scheduler.Choice.{IsEligible}
use modelrelay.Relay.Scheduler.Least.{select_node-IsEligible}
use modelrelay.Relay.Scheduler.Busy.{select_node-busy_without_capability}
use modelrelay.Relay.Scheduler.Waiting.{
  Poll, wait_time, WaitError, wait_for_node, wait_for_node-returns,
}
use modelrelay.Relay.Connection.History.{IsNew}
use modelrelay.Relay.Connection.Kept.{new_server}
use modelrelay.Tests.{some_model, some_node}

slot_run-IsCounted_example : IsCounted (
    slot_run
      (record { node = some_node; held = 1; most = 2 })
      (reserves ∷ releases ∷ limits 5 ∷ []))
slot_run-IsCounted_example =
    slot_run-IsCounted (record { node = some_node; held = 1; most = 2 })
      (reserves ∷ releases ∷ limits 5 ∷ [])
      (record { exact = refl; bounded = omega arith; limited = omega arith })

abbrev pub one_node : Registry
one_node = record { heap = λ p. some_node; nodes = ("a", 0) ∷ [] }

abbrev drained_node : Node
drained_node = record some_node { state = draining }

mark_heartbeat-monitor_tick_draining_example :
    is_serving (mark_heartbeat 160 1 true (monitor_tick 100 150 drained_node).0).state ≡ true
mark_heartbeat-monitor_tick_draining_example =
    mark_heartbeat-monitor_tick_draining 100 150 160 1 drained_node refl (omega arith) (omega arith)

pub ltb_irrefl : (x : ℕ) → ltb x x ≡ false
ltb_irrefl x = ground arith

pub ltb_asymm : (x y : ℕ) → ltb x y ≡ true → ltb y x ≡ false
ltb_asymm x y h = ground arith

pub ltb_connected : (x y z : ℕ) → ltb y x ≡ false → ltb z y ≡ false → ltb z x ≡ false
ltb_connected x y z h k = ground arith

-- Quotients in hundredths, in place of floats.
abbrev pub hundredths : Float64
hundredths = record {
  F = ℕ;
  IsNumber = λ x. Unit;
  one = 100;
  quotient = λ a b. a * 100 / b;
  lt = ltb;
  one-IsNumber = tt;
  quotient-IsNumber = λ a b h. tt;
  lt_irrefl = λ x h. ltb_irrefl x;
  lt_asymm = λ x y h k l. ltb_asymm x y l;
  lt_connected = λ x y z h k l m n. ltb_connected x y z m n;
}

selected : select_node hundredths one_node "m" "chat_completions" ≡ ok 0
unfolding select_node choose candidates candidates_in candidate_of list sort_by insert_sorted
    snapshot get lookup supports_model least_loaded has_capacity
selected = refl

one_node-IsKeyed : IsKeyed one_node
unfolding get lookup
one_node-IsKeyed id p e = ground (arith, string_eq.eqb_iff "a" id)

one_node-IsMap : IsMap one_node.nodes
unfolding lookup
one_node-IsMap = (refl, tt)

select_node-IsEligible_example :
    IsEligible one_node "m" "chat_completions" 0
    × ((q : ℕ)
        → IsEligible one_node "m" "chat_completions" q
        → hundredths.lt (load hundredths (one_node.heap q)) (load hundredths (one_node.heap 0))
          ≡ false)
select_node-IsEligible_example =
    select_node-IsEligible hundredths one_node "m" "chat_completions" 0 one_node-IsMap
      one_node-IsKeyed selected

abbrev full_node : Registry
full_node = record { heap = λ p. record some_node { active = 2 }; nodes = ("a", 0) ∷ [] }

select_node-busy_without_capability_example :
    (supports_model (full_node.heap 0) "m" "" ≡ true)
    × (select_node hundredths full_node "m" "" ≡ err capability_not_supported)
unfolding has_capacity lookup
select_node-busy_without_capability_example =
    select_node-busy_without_capability hundredths full_node "m" 0 some_model refl refl full found
      refl refl
  where
    full : has_capacity (full_node.heap 0) ≡ false
    full = refl

    found : lookup "m" (full_node.heap 0).models ≡ some some_model
    found = refl

abbrev busy_at : ℕ → Poll
busy_at now = record { outcome = err all_nodes_busy; now = now; done = false }

abbrev two_polls : List Poll
two_polls = busy_at 0 ∷ busy_at 50 ∷ []

wait_for_node-returns_example : (y : Result WaitError ℕ) × (wait_for_node 50 two_polls ≡ some y)
unfolding wait_time
wait_for_node-returns_example =
    wait_for_node-returns 50 0 1 two_polls (omega arith, (omega arith, tt)) (omega arith)
      (omega arith)

abbrev pub the_heap : ℕ → Node
the_heap p = some_node

pub first-IsNew : IsNew (new_server the_heap) 0 some_node
unfolding new_server get lookup
first-IsNew = (λ id e. cc, λ e. cc)
