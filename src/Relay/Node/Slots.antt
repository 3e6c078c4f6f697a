-- ===== src/Relay/Node/Slots.antt =====
-- The concurrency slots of a node (Reserve, Release and SetMaxConcurrency of
-- internal/relay/registry.go) over any history of calls.
use modelrelay.Base.{ℕ, ◌+◌, ◌-◌, ◌≤◌, ◌≡◌, List, [], ◌∷◌, arith, ltb, leb, if◌then◌else◌}
use modelrelay.Relay.Node.{Node, reserve, release, set_max_concurrency, has_capacity}

pub data SlotCall : Type 0 where
  reserves releases : SlotCall
  limits : ℕ → SlotCall

-- The node, the requests that hold a slot, and the most that `active` was allowed to reach.
pub record Slots : Type 0 where
  pub node : Node
  pub held : ℕ
  pub most : ℕ

-- A caller releases only a slot that it holds: handleProxy defers Release behind a Reserve that
-- succeeded.
unfoldable pub slot_step : Slots → SlotCall → Slots
unfolding reserve release set_max_concurrency
slot_step s reserves =
    let (n, granted) = reserve s.node in
    record s { node = n; held = if granted then s.held + 1 else s.held }
slot_step s releases =
    if ltb 0 s.held then record s { node = release s.node; held = s.held - 1 } else s
slot_step s (limits v) =
    let n = set_max_concurrency v s.node in
    record s { node = n; most = if leb s.most n.max_concurrency then n.max_concurrency else s.most }

unfoldable pub slot_run : Slots → List SlotCall → Slots
unfolding slot_step
slot_run s [] = s
slot_run s (c ∷ cs) = slot_run (slot_step s c) cs

pub record IsCounted (s : Slots) : Type 0 where
  pub exact : s.node.active ≡ s.held
  pub bounded : s.node.active ≤ s.most
  pub limited : s.node.max_concurrency ≤ s.most

slot_step-IsCounted : (s : Slots) (c : SlotCall) → IsCounted s → IsCounted (slot_step s c)
unfolding slot_step
slot_step-IsCounted s reserves v = ground arith
slot_step-IsCounted s releases v = ground arith
slot_step-IsCounted s (limits n) v = ground arith

-- From a consistent state, however requests come and go and the limit is changed, a node's active count is the number of
-- requests that hold a slot, and it never exceeds the largest limit in force so far.
pub slot_run-IsCounted : (s : Slots) (cs : List SlotCall) → IsCounted s → IsCounted (slot_run s cs)
unfolding slot_run
slot_run-IsCounted s [] v = v
slot_run-IsCounted s (c ∷ cs) v = slot_run-IsCounted (slot_step s c) cs (slot_step-IsCounted s c v)

-- A slot is granted exactly when there is capacity.
pub reserve-has_capacity : (n : Node) → (reserve n).1 ≡ has_capacity n
unfolding reserve has_capacity
reserve-has_capacity n = ground arith
