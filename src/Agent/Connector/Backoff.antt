-- ===== src/Agent/Connector/Backoff.antt =====
-- How long the agent waits between two rounds (internal/agent/connector.go).
use Prim.Native.Nat.{min}
use mathlib.Core.Path.{ap₂}
use native.Mathlib.Nat.{pow-suc}
use modelrelay.Base.{
  ℕ, zero, suc, ◌+◌, ◌*◌, ◌^◌, ◌≤◌, ◌≡◌, refl, sym, List, [], ◌∷◌, arith, ltb, get_or,
  if◌then◌else◌,
}
use modelrelay.Config.Agent.{RelayAddr}
use modelrelay.Agent.Connector.{LinkState, Round, try_relays, sorted_relays, backoff, run}

-- One second, doubled for every round before, and 30 seconds at most.
abbrev pub waits_from : ℕ → List Round → List ℕ
waits_from k [] = []
waits_from k (w ∷ ws) = (min (1000 * 2 ^ k) 30000 + w.jitter) ∷ waits_from (suc k) ws

power-ge : (k : ℕ) → 32 ≤ 2 ^ (k + 5)
power-ge zero = omega arith
power-ge (suc k) =
    let e : suc k + 5 ≡ suc (k + 5) = omega arith in
    rw e (omega (arith, pow-suc 2 (k + 5), power-ge k))

backoff-min : (k : ℕ) → get_or backoff (min k 5) 0 ≡ min (1000 * 2 ^ k) 30000
backoff-min zero = refl
backoff-min (suc zero) = refl
backoff-min (suc (suc zero)) = refl
backoff-min (suc (suc (suc zero))) = refl
backoff-min (suc (suc (suc (suc zero)))) = refl
backoff-min (suc (suc (suc (suc (suc k))))) =
    let five : min (suc (suc (suc (suc (suc k))))) 5 ≡ 5 = omega arith in
    let large : 30000 ≤ 1000 * 2 ^ (k + 5) = omega (arith, power-ge k) in
    let e : suc (suc (suc (suc (suc k)))) ≡ k + 5 = omega arith in
    let capped : min (1000 * 2 ^ (k + 5)) 30000 ≡ 30000 = omega (arith, large) in
    rw (five, e) (sym capped)

run-waits_from :
    (sha256 : List ℕ → List ℕ) (max_body_bytes max_concurrency : ℕ) (relays : List RelayAddr)
    (k : ℕ) (ws : List Round) (s : LinkState)
    → (run sha256 max_body_bytes max_concurrency relays (min k 5) ws s).2 ≡ waits_from k ws
unfolding run
run-waits_from sha256 max_body_bytes max_concurrency relays k [] s = refl
run-waits_from sha256 max_body_bytes max_concurrency relays k (w ∷ ws) s =
    let next : (if ltb (min k 5) 5 then min k 5 + 1 else min k 5) ≡ min (suc k) 5 = ground arith in
    rw next (
      ap₂ (λ d ds. (d + w.jitter) ∷ ds) (backoff-min k)
        (run-waits_from sha256 max_body_bytes max_concurrency relays (suc k) ws
          (try_relays sha256 max_body_bytes max_concurrency w (sorted_relays relays) s).0))

-- The waits between the rounds are one second, doubled each time, up to 30 seconds, with the jitter of
-- the round: they depend on the number of rounds alone, not on whether the agent was connected.
pub run-waits :
    (sha256 : List ℕ → List ℕ) (max_body_bytes max_concurrency : ℕ) (relays : List RelayAddr)
    (ws : List Round) (s : LinkState)
    → (run sha256 max_body_bytes max_concurrency relays 0 ws s).2 ≡ waits_from 0 ws
run-waits sha256 max_body_bytes max_concurrency relays ws s =
    run-waits_from sha256 max_body_bytes max_concurrency relays 0 ws s
