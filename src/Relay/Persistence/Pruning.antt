-- ===== src/Relay/Persistence/Pruning.antt =====
-- What the retention loop of internal/relay/server.go deletes.
use modelrelay.Base.{
  ◌&&◌, All, ◌/◌, Bool, ℕ, ◌%◌, ◌<◌, ◌≡◌, refl, true, false, List, [], length, select,
}
use modelrelay.Config.Relay.{ℤ, is_positive}
use modelrelay.Store.Certs.{Store}
use modelrelay.Store.Logs.{text_lt}
use modelrelay.Store.Logs.Timestamps.{per_second, rfc3339_nano}
use modelrelay.Store.Logs.Retained.{IsPruned, select-IsPruned, is_younger, select-younger}
use modelrelay.Relay.Persistence.{prune}

-- What a deletion leaves of a log, if its statement is reached and succeeds.
abbrev pub PrunedIf : {A : Type 0} → Bool → (A → ℕ) → ℕ → List A → List A → Type 0
PrunedIf true time cutoff before after = IsPruned time cutoff before after
PrunedIf false time cutoff before after = after ≡ before

module _ (clock : ℕ → List ℕ) (width limit : ℕ)
    (wide : (s : ℕ) → s < limit → length (clock s) ≡ width)
    (ordered : (s t : ℕ) → s < t → t < limit → text_lt (clock s) (clock t) ≡ true)
    (add_date : ℕ → ℤ → ℕ) where
  -- If up to some limit the texts of seconds have one length and are in the order of the seconds, and
  -- the cutoffs and the rows are of seconds before the limit, then of a prune with a positive number of
  -- days each deletion that is reached and succeeds keeps no row of its log that is of an earlier second
  -- than its cutoff and keeps every row of a later second, in order; a log whose deletion fails, or is
  -- not reached since that of the audit log fails, stays as it is, and so do the certificates.
  pub prune-IsPruned :
      (now later : ℕ) (first second : Bool) (days : ℤ) (st : Store)
      → is_positive days ≡ true
      → add_date now days / per_second < limit
      → add_date later days / per_second < limit
      → All (λ e. e.time / per_second < limit) st.audit
      → All (λ r. r.time / per_second < limit) st.summaries
      → let st' = prune (rfc3339_nano clock) add_date (now, first) (later, second) days st in
        PrunedIf first (λ e. e.time) (add_date now days) st.audit st'.audit
        × PrunedIf (first && second) (λ r. r.time) (add_date later days) st.summaries st'.summaries
        × (st'.certs ≡ st.certs)
  unfolding prune
  prune-IsPruned now later true true days st h c d audit summaries =
      rw (prune, h)
        (
          select-IsPruned clock width limit wide ordered (add_date now days) c (λ e. e.time)
              st.audit audit,
          select-IsPruned clock width limit wide ordered (add_date later days) d (λ r. r.time)
              st.summaries summaries,
          refl,
        )
  prune-IsPruned now later true false days st h c d audit summaries =
      rw (prune, h)
        (
          select-IsPruned clock width limit wide ordered (add_date now days) c (λ e. e.time)
              st.audit audit,
          refl,
          refl,
        )
  prune-IsPruned now later false second days st h c d audit summaries = (refl, refl, refl)

module _ (clock : ℕ → List ℕ) (add_date : ℕ → ℤ → ℕ) where
  -- If the cutoffs are whole seconds and both deletions succeed, a prune with a positive number of days
  -- deletes also the rows that are younger than the cutoff of their log but of the same second.
  pub prune-younger :
      (now later : ℕ) (days : ℤ) (st : Store)
      → is_positive days ≡ true
      → add_date now days % per_second ≡ 0
      → add_date later days % per_second ≡ 0
      → let st' = prune (rfc3339_nano clock) add_date (now, true) (later, true) days st in
        (select (λ e. is_younger (add_date now days) e.time) st'.audit ≡ [])
        × (select (λ r. is_younger (add_date later days) r.time) st'.summaries ≡ [])
  unfolding prune
  prune-younger now later days st h whole whole' =
      rw (prune, h)
        (
          select-younger clock (λ e. e.time) (add_date now days) st.audit whole,
          select-younger clock (λ r. r.time) (add_date later days) st.summaries whole',
        )
