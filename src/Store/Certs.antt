-- ===== src/Store/Certs.antt =====
-- The certificates and the audit log of internal/store/certs.go and audit.go. The column `serial`
-- of the table `certs` is unique, so the table is a map from serials to rows.
pub mod Revocation
use text.Mathlib.Text.{◌==◌ as str_eq}
use modelrelay.Base.{
  ℕ, Bool, true, false, String, List, [], ◌∷◌, ◌++◌, Option, none, some, lookup, insert, string_eq,
  if◌then◌else◌,
}

pub data CertStatus : Type 0 where
  active revoked expired : CertStatus

pub record CertMeta : Type 0 where
  pub node_id : String
  pub serial : String
  pub subject : String
  pub issuer : String
  pub not_before : ℕ
  pub not_after : ℕ
  pub status : CertStatus
  pub fingerprint : String
  pub revoked_at : Option ℕ
  pub revoke_reason : String
  pub created_at : ℕ

pub record AuditEntry : Type 0 where
  pub time : ℕ
  pub actor : String
  pub action : String
  pub target : String

pub record RequestSummary : Type 0 where
  pub time : ℕ
  pub request_id : String
  pub path : String
  pub model : String
  pub node : String
  pub status : ℕ
  pub ttft_ms : ℕ
  pub duration_ms : ℕ
  pub error_code : String

-- The tables `audit_log` and `request_summaries` in the order of their ids, which are left out.
pub record Store : Type 0 where
  pub certs : List (String × CertMeta)
  pub audit : List AuditEntry
  pub summaries : List RequestSummary

-- The row that the INSERT statements write: the columns of a revocation stay NULL.
abbrev pub new_row : ℕ → CertMeta → CertMeta
new_row now c = record c { revoked_at = none; revoke_reason = ""; created_at = now }

-- `false`: the unique serial is taken, and the statement fails.
unfoldable pub add_cert_meta : ℕ → CertMeta → Store → Store × Bool
add_cert_meta now c st = elim (lookup c.serial st.certs) [
  | some row ↦ (st, false)
  | none ↦ (record st { certs = insert c.serial (new_row now c) st.certs }, true)
]

-- ON CONFLICT(serial) DO NOTHING.
unfoldable pub ensure_cert_meta : ℕ → CertMeta → Store → Store
ensure_cert_meta now c st = elim (lookup c.serial st.certs) [
  | some row ↦ st
  | none ↦ record st { certs = insert c.serial (new_row now c) st.certs }
]

abbrev pub is_revoked : CertStatus → Bool
is_revoked revoked = true
is_revoked _ = false

unfoldable pub is_cert_revoked : Store → String → Bool
is_cert_revoked st serial = elim (lookup serial st.certs) [
  | none ↦ false
  | some row ↦ is_revoked row.status
]

unfoldable pub get_cert : Store → String → Option CertMeta
get_cert st serial = lookup serial st.certs

abbrev pub revoked_row : ℕ → String → CertMeta → CertMeta
revoked_row now reason row = record row {
  status = revoked;
  revoked_at = some now;
  revoke_reason = reason;
}

-- `none`: no row was updated.
unfoldable pub revoke_cert : ℕ → String → String → Store → Option Store
revoke_cert now serial reason st = elim (lookup serial st.certs) [
  | none ↦ none
  | some row ↦ some (record st { certs = insert serial (revoked_row now reason row) st.certs })
]

unfoldable pub add_audit : ℕ → String → String → String → Store → Store
add_audit now actor action target st = record st {
  audit = st.audit ++ (record { time = now; actor = actor; action = action; target = target } ∷ []);
}
