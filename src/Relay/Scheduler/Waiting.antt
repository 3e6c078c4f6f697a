-- ===== src/Relay/Scheduler/Waiting.antt =====
-- WaitForNode of internal/relay/scheduler.go. Each round of the loop is a poll: what Select
-- returned, the clock after it, and whether the context was done before the wait was over.
use modelrelay.Base.{
  ℕ, zero, suc, length, Option-cases, ◌∙◌, ◌*◌, ◌+◌, ◌-◌, ◌≤◌, ◌<◌, ◌≡◌, refl, inl, inr, Bool, List,
  [], ◌∷◌, Option, none, some, arith, ltb, ◌==◌, if◌then◌else◌, Result, ok, err,
}
use modelrelay.Relay.Scheduler.{
  SelectError, model_not_found, capability_not_supported, no_node_online, all_nodes_busy,
}

pub record Poll : Type 0 where
  pub outcome : Result SelectError ℕ
  pub now : ℕ
  pub done : Bool

pub data WaitError : Type 0 where
  select_failed : SelectError → WaitError
  context_done : WaitError

abbrev pub poll_interval : ℕ
poll_interval = 50

-- How long a round waits: 50 ms, or what remains until the deadline.
unfoldable pub wait_time : ℕ → ℕ → ℕ
wait_time deadline now =
    if ltb (deadline - now) poll_interval then deadline - now else poll_interval

-- A round: `none` means that the loop goes on.
unfoldable pub poll_step : ℕ → Poll → Option (Result WaitError ℕ)
unfolding wait_time
poll_step deadline p = elim p.outcome [
  | ok node ↦ some (ok node)
  | err all_nodes_busy ↦
      if wait_time deadline p.now == 0
      then some (err (select_failed all_nodes_busy))
      else if p.done
      then some (err context_done)
      else none
  | err e ↦ some (err (select_failed e))
]

-- `none` means that the polls ran out while the loop still waits.
unfoldable pub wait_for_node : ℕ → List Poll → Option (Result WaitError ℕ)
wait_for_node deadline [] = none
wait_for_node deadline (p ∷ ps) = elim (poll_step deadline p) [
  | none ↦ wait_for_node deadline ps
  | some result ↦ some result
]

-- The clock: a round that waits ends no earlier than its wait.
abbrev pub IsTimed : ℕ → ℕ → List Poll → Type 0
IsTimed deadline start [] = Unit
IsTimed deadline start (p ∷ ps) =
    (start ≤ p.now) × IsTimed deadline (p.now + wait_time deadline p.now) ps

wait_for_node-step :
    (deadline : ℕ) (p : Poll) (ps : List Poll) {x : Option (Result WaitError ℕ)}
    → poll_step deadline p ≡ x
    → wait_for_node deadline (p ∷ ps)
      ≡ elim x [ none ↦ wait_for_node deadline ps | some y ↦ some y ]
unfolding wait_for_node
wait_for_node-step deadline p ps e = rw (e, wait_for_node)

poll_step_late :
    (deadline : ℕ) (p : Poll)
    → deadline ≤ p.now
    → (y : Result WaitError ℕ) × (poll_step deadline p ≡ some y)
unfolding poll_step
poll_step_late deadline p h = late p.outcome
  where
    late :
        (o : Result SelectError ℕ)
        → (y : Result WaitError ℕ) × (poll_step deadline (record p { outcome = o }) ≡ some y)
    late (ok n) = (ok n, refl)
    late (err all_nodes_busy) = (err (select_failed all_nodes_busy), ground arith)
    late (err model_not_found) = (err (select_failed model_not_found), refl)
    late (err capability_not_supported) = (err (select_failed capability_not_supported), refl)
    late (err no_node_online) = (err (select_failed no_node_online), refl)

wait_time_lem :
    (deadline start now k : ℕ)
    → start ≤ now
    → deadline ≤ start + poll_interval * suc k
    → deadline ≤ (now + wait_time deadline now) + poll_interval * k
unfolding wait_time
wait_time_lem deadline start now k late h = ground arith

-- The loop ends: a round that goes on takes 50 ms or reaches the deadline, so with more than `k`
-- rounds on the clock, where `50 * k` ms reach the deadline, it has returned.
pub wait_for_node-returns :
    (deadline start k : ℕ) (ps : List Poll)
    → IsTimed deadline start ps
    → deadline ≤ start + poll_interval * k
    → k < length ps
    → (y : Result WaitError ℕ) × (wait_for_node deadline ps ≡ some y)
wait_for_node-returns deadline start k [] timed h more = absurd (omega arith)
wait_for_node-returns deadline start zero (p ∷ ps) timed h more =
    let (y, e) = poll_step_late deadline p (omega arith) in (y, wait_for_node-step deadline p ps e)
wait_for_node-returns deadline start (suc k) (p ∷ ps) timed h more =
    elim (Option-cases (poll_step deadline p)) [
      | inr (y, e) ↦ (y, wait_for_node-step deadline p ps e)
      | inl e ↦
          let next : deadline ≤ (p.now + wait_time deadline p.now) + poll_interval * k =
            wait_time_lem deadline start p.now k timed.0 h in
          let (y, e') =
            wait_for_node-returns deadline (p.now + wait_time deadline p.now) k ps timed.1 next
              (omega arith) in
          (y, wait_for_node-step deadline p ps e ∙ e')
    ]
