-- ===== src/Relay/Admission/Slots.antt =====
-- What the two counters of acquire mean in every state that requests can reach together, and how far
-- the queue can exceed its length.
use modelrelay.Base.{ℕ, ◌+◌, ◌≤◌, ◌≡◌, refl, ap, ◌∙◌, List, [], ◌∷◌, ◌++◌, arith}
use modelrelay.Relay.Admission.{
  Shared, Place, entering, selecting, admitted, leaving, serving, Move, pass, take_slot, System,
  Step, arrive, move, Reach, here, later, idle,
}

abbrev pub total : (Place → ℕ) → List Place → ℕ
total w [] = 0
total w (p ∷ ps) = w p + total w ps

total-append : (w : Place → ℕ) (ps qs : List Place) → total w (ps ++ qs) ≡ total w ps + total w qs
total-append w [] qs = omega arith
total-append w (p ∷ ps) qs = omega (arith, total-append w ps qs)

pub total-split :
    (w : Place → ℕ) (before : List Place) (p : Place) (after : List Place) {ps : List Place}
    → ps ≡ before ++ (p ∷ after)
    → total w ps ≡ total w before + (w p + total w after)
total-split w before p after e = ap (total w) e ∙ total-append w before (p ∷ after)

-- The requests that have a token.
abbrev pub holds : Place → ℕ
holds admitted = 1
holds serving = 1
holds _ = 0

-- The requests that the counter counts.
abbrev pub waits : Place → ℕ
waits selecting = 1
waits admitted = 1
waits leaving = 1
waits _ = 0

abbrev pub enters : Place → ℕ
enters entering = 1
enters _ = 0

pub record IsCounted (max_concurrency : ℕ) (s : System) : Type 0 where
  pub held : s.shared.sem ≡ total holds s.requests
  pub counted : s.shared.waiting ≡ total waits s.requests
  pub room : s.shared.sem ≤ max_concurrency

-- What the other requests hold and count, with what one request at `p` adds.
record Balance (max_concurrency held counted : ℕ) (m : Shared) (p : Place) : Type 0 where
  sem : m.sem ≡ held + holds p
  waiting : m.waiting ≡ counted + waits p
  room : m.sem ≤ max_concurrency

module _ (queue_length max_concurrency : ℕ) where
  Move-Balance :
      {held counted : ℕ} {p p' : Place} {m m' : Shared}
      → Move queue_length max_concurrency m p m' p'
      → Balance max_concurrency held counted m p
      → Balance max_concurrency held counted m' p'
  Move-Balance (pass h) b = ground arith
  Move-Balance (take_slot h) b = ground arith
  Move-Balance mv b = ground arith

  Step-IsCounted :
      {s t : System}
      → Step queue_length max_concurrency s t
      → IsCounted max_concurrency s
      → IsCounted max_concurrency t
  Step-IsCounted arrive c = ground arith
  Step-IsCounted (move before after {p} {p'} {m} e mv) c = record {
    held = omega (arith, b.sem, total-split holds before p' after refl);
    counted = omega (arith, b.waiting, total-split waits before p' after refl);
    room = b.room;
  }
    where
      b :
          Balance max_concurrency
            (total holds before + total holds after)
            (total waits before + total waits after)
            m
            p'
      b = Move-Balance mv (record {
        sem = omega (arith, c.held, total-split holds before p after e);
        waiting = omega (arith, c.counted, total-split waits before p after e);
        room = c.room;
      })

  -- However the requests interleave, the tokens in the semaphore are those of the requests that have
  -- one, at most as many as configured, and `waiting` counts the requests that are between its
  -- increment and its decrement.
  pub Reach-IsCounted :
      (s : System) → Reach queue_length max_concurrency idle s → IsCounted max_concurrency s
  Reach-IsCounted _ here = record { held = refl; counted = refl; room = omega arith }
  Reach-IsCounted _ (later {t} r st) = Step-IsCounted st (Reach-IsCounted t r)
