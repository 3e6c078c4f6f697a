-- ===== src/Certs.antt =====
-- The certificates of agents: ValidateAgentCSR and IssueFromCSR of internal/certs/certs.go and
-- InspectCSR of internal/certmgr/issue.go. What crypto/x509 does is a parameter, and so are TrimSpace
-- and PathEscape; the texts of errors, the keys and the times are left out.
pub mod Issued
pub mod Authority
pub mod Requested
use text.Mathlib.Text.{◌==◌ as str_eq}
use modelrelay.Base.{
  ℕ, Bool, true, false, not, String, List, [], ◌∷◌, Option, none, some, if◌then◌else◌, Result, ok,
  err, ◌>>=◌, ◌>>◌,
}
use modelrelay.Config.Relay.{ℤ, is_positive}
use modelrelay.Relay.Handshake.{Certificate, agent_identity_uri}

-- x509.CertificateRequest as far as it is read; a parsed request has no nil URI.
pub record Csr : Type 0 where
  pub common_name : String
  pub uris : List String
  pub dns_names : List String

-- The template that is signed: client authentication only.
pub record Template : Type 0 where
  pub serial_number : String
  pub common_name : String
  pub uris : List String
  pub dns_names : List String
  pub days : ℤ

pub record CsrInfo : Type 0 where
  pub common_name : String
  pub node_id : String
  pub dns_names : List String
  pub uris : List String

pub data CertError : Type 0 where
  days_not_positive not_a_csr node_id_required signature_invalid : CertError
  common_name_mismatch uri_mismatch no_serial not_created : CertError

abbrev pub require : Bool → CertError → Result CertError (Unit {0})
require true e = ok tt
require false e = err e

abbrev pub or_fail : {A : Type 0} → Option A → CertError → Result CertError A
or_fail none e = err e
or_fail (some x) e = ok x

-- The list is the one URI alone.
abbrev pub is_only : String → List String → Bool
is_only want [] = false
is_only want (u ∷ []) = str_eq u want
is_only want (u ∷ v ∷ us) = false

module _ (trim_space path_escape : String → String) (check_signature : Csr → Bool) where
  unfoldable pub validate_agent_csr : Csr → String → Result CertError (Unit {0})
  unfolding agent_identity_uri
  validate_agent_csr csr node_id = do
    require (not (str_eq (trim_space node_id) "")) node_id_required
    require (check_signature csr) signature_invalid
    require (str_eq csr.common_name node_id) common_name_mismatch
    require (is_only (agent_identity_uri trim_space path_escape node_id) csr.uris) uri_mismatch

  abbrev pub or_name : String → Csr → String
  or_name id csr = if str_eq id "" then csr.common_name else id

  unfoldable pub inspect_csr : Option Csr → String → Result CertError CsrInfo
  unfolding validate_agent_csr
  inspect_csr parsed node_id = do
    csr ← or_fail parsed not_a_csr
    validate_agent_csr csr (or_name (trim_space node_id) csr)
    ok (record {
      common_name = csr.common_name;
      node_id = or_name (trim_space node_id) csr;
      dns_names = csr.dns_names;
      uris = csr.uris;
    })

  -- `create` is x509.CreateCertificate with the key of the CA; `serial` the random serial, if any.
  unfoldable pub issue_from_csr :
      (Template → Option Certificate)
      → Option String
      → Option Csr
      → String
      → ℤ
      → Result CertError Certificate
  unfolding validate_agent_csr
  issue_from_csr create serial parsed cn days = do
    require (is_positive days) days_not_positive
    csr ← or_fail parsed not_a_csr
    validate_agent_csr csr cn
    serial_number ← or_fail serial no_serial
    or_fail
        (create (record {
          serial_number = serial_number;
          common_name = csr.common_name;
          uris = csr.uris;
          dns_names = csr.dns_names;
          days = days;
        }))
        not_created
