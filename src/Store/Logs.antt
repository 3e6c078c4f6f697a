-- ===== src/Store/Logs.antt =====
-- The audit log and the request summaries of internal/store/audit.go: what is listed and what a prune
-- deletes. A row's time is stored as a text, and SQLite compares the texts byte by byte.
pub mod Timestamps
pub mod Retained
use modelrelay.Base.{
  ℕ, ◌+◌, Bool, true, false, not, ◌&&◌, ◌||◌, List, [], ◌∷◌, ◌++◌, ltb, ◌==◌, length, take, select,
  if◌then◌else◌,
}
use modelrelay.Config.Relay.{ℤ, pos, negsuc, is_positive}
use modelrelay.Store.Certs.{Store, AuditEntry, RequestSummary}

-- `now` is the time of the insertion.
unfoldable pub add_request_summary : ℕ → RequestSummary → Store → Store
add_request_summary now r st = record st {
  summaries = st.summaries ++ (record r { time = now } ∷ []);
}

abbrev pub limit_within : ℕ → ℤ → ℕ
limit_within most (pos n) = if n == 0 || ltb most n then 200 else n
limit_within most (negsuc n) = 200

module _ {ℓ} {A : Type ℓ} where
  abbrev pub newest_first : List A → List A → List A
  newest_first [] out = out
  newest_first (x ∷ xs) out = newest_first xs (x ∷ out)

unfoldable pub list_audit : ℤ → Store → List AuditEntry
list_audit limit st = take (limit_within 1000 limit) (newest_first st.audit [])

unfoldable pub list_request_summaries : ℤ → Store → List RequestSummary
list_request_summaries limit st = take (limit_within 2000 limit) (newest_first st.summaries [])

-- The order of texts as lists of bytes.
abbrev pub text_lt : List ℕ → List ℕ → Bool
text_lt xs [] = false
text_lt [] (y ∷ ys) = true
text_lt (x ∷ xs) (y ∷ ys) = ltb x y || (x == y && text_lt xs ys)

-- `stamp` is the text of a time; `cutoff` the time that lies `days` before now.
module _ (stamp : ℕ → List ℕ) where
  abbrev pub is_kept : ℕ → ℕ → Bool
  is_kept cutoff time = not (text_lt (stamp time) (stamp cutoff))

  unfoldable pub prune_audit : ℤ → ℕ → Store → Store
  prune_audit days cutoff st =
      if is_positive days
      then record st { audit = select (λ e. is_kept cutoff e.time) st.audit }
      else st

  unfoldable pub prune_request_summaries : ℤ → ℕ → Store → Store
  prune_request_summaries days cutoff st =
      if is_positive days
      then record st { summaries = select (λ r. is_kept cutoff r.time) st.summaries }
      else st

pub record Counts : Type 0 where
  pub requests : ℕ
  pub certs : ℕ
  pub audit : ℕ

unfoldable pub summary : Store → Counts
summary st = record {
  requests = length st.summaries;
  certs = length st.certs;
  audit = length st.audit;
}
