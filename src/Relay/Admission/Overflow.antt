-- ===== src/Relay/Admission/Overflow.antt =====
-- How far the queue of acquire can exceed its length: by the number of requests that stand between
-- the load of the counter and its increment.
use modelrelay.Base.{
  ℕ, zero, suc, ◌+◌, ◌≤◌, ◌<◌, ◌≡◌, refl, sym, ap, subst, List, [], ◌∷◌, ◌++◌, arith,
}
use modelrelay.Relay.Admission.{
  Shared, Place, entering, selecting, Move, pass, enter, System, Step, arrive, move, Reach, here,
  later, idle,
}
use modelrelay.Relay.Admission.Slots.{total, total-split, enters}

module _ (queue_length max_concurrency k : ℕ) where
  -- A run in which at most `k` requests at a time are between the load and the increment.
  pub data ReachWithin (s : System) : System → Type 0 where
    start : ReachWithin s s
    next :
        {t u : System}
        → ReachWithin s t
        → Step queue_length max_concurrency t u
        → total enters u.requests ≤ k
        → ReachWithin s u

  abbrev IsBounded : Shared → ℕ → Type 0
  IsBounded m entering_now = m.waiting + entering_now < queue_length + k

  Move-IsBounded :
      (entered : ℕ) {p p' : Place} {m m' : Shared}
      → Move queue_length max_concurrency m p m' p'
      → entered + enters p' ≤ k
      → IsBounded m (entered + enters p)
      → IsBounded m' (entered + enters p')
  Move-IsBounded entered (pass h) w b = ground arith
  Move-IsBounded entered mv w b = ground arith

  Step-IsBounded :
      {s t : System}
      → Step queue_length max_concurrency s t
      → total enters t.requests ≤ k
      → IsBounded s.shared (total enters s.requests)
      → IsBounded t.shared (total enters t.requests)
  Step-IsBounded arrive w b = omega arith
  Step-IsBounded (move before after {p} {p'} e mv) w b =
      let old = total-split enters before p after e in
      let new = total-split enters before p' after refl in
      let others : ℕ = total enters before + total enters after in
      omega (arith, new, Move-IsBounded others mv (omega (arith, new)) (omega (arith, old)))

  -- If at most k requests at a time are between the load of the counter and its increment, k not 0,
  -- then the counter stays below the length of the queue plus k.
  pub ReachWithin-waiting :
      (s : System)
      → 0 < k
      → ReachWithin idle s
      → s.shared.waiting + total enters s.requests < queue_length + k
  ReachWithin-waiting _ some_k start = omega arith
  ReachWithin-waiting _ some_k (next {t} r st w) =
      Step-IsBounded st w (ReachWithin-waiting t some_k r)

-- The first `n` of them at `p`.
abbrev pub copies : ℕ → Place → List Place → List Place
copies zero p rest = rest
copies (suc n) p rest = p ∷ copies n p rest

copies-append :
    (n : ℕ) (p : Place) (rest : List Place) → copies n p [] ++ (p ∷ rest) ≡ copies (suc n) p rest
copies-append zero p rest = refl
copies-append (suc n) p rest = ap (λ ps. p ∷ ps) (copies-append n p rest)

append-copies : (n : ℕ) (p : Place) (rest : List Place) → copies n p [] ++ rest ≡ copies n p rest
append-copies zero p rest = refl
append-copies (suc n) p rest = ap (λ ps. p ∷ ps) (append-copies n p rest)

abbrev waiting_now : ℕ → Shared
waiting_now n = record { sem = 0; waiting = n; queue_full_total = 0 }

module _ (queue_length max_concurrency : ℕ) (some_queue : 0 < queue_length) where
  -- All `n` requests pass the check before any of them counts itself.
  all_pass :
      (n : ℕ)
      → Reach queue_length max_concurrency idle
          (record { shared = waiting_now 0; requests = copies n entering [] })
  all_pass zero = here
  all_pass (suc n) =
      later (later (all_pass n) arrive) (move [] (copies n entering []) refl (pass some_queue))

  all_enter :
      (n j : ℕ)
      → Reach queue_length max_concurrency idle
          (record { shared = waiting_now n; requests = copies n selecting (copies j entering []) })
  all_enter zero j = all_pass j
  all_enter (suc n) j =
      let after = copies j entering [] in
      let shift : n + 1 ≡ suc n = omega arith in
      subst
        (λ rs.
          Reach queue_length max_concurrency idle
            (record { shared = waiting_now (suc n); requests = rs }))
        (copies-append n selecting after)
        (subst
          (λ w. Reach queue_length max_concurrency idle (record {
            shared = waiting_now w;
            requests = copies n selecting [] ++ (selecting ∷ after);
          }))
          shift
          (later (all_enter n (suc j)) (
            move (copies n selecting []) after (sym (append-copies n selecting (entering ∷ after)))
              enter)))

  -- Of any number of requests that arrive together, all get into the queue if its length is not 0:
  -- a state is reached in which exactly these wait and the counter has their number.
  pub waiting_unbounded :
      (n : ℕ)
      → (s : System) × Reach queue_length max_concurrency idle s
        × (s.shared.waiting ≡ n)
        × (s.requests ≡ copies n selecting [])
        × (s.shared.queue_full_total ≡ 0)
  waiting_unbounded n = (_, all_enter n 0, refl, refl, refl)
