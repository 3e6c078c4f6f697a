-- ===== src/Certs/Issued.antt =====
-- What the relay's handshake makes of a certificate that internal/certs/certs.go has issued.
use text.Mathlib.Text.{◌==◌ as str_eq}
use text.Mathlib.TextEquality.{eq_iff}
use modelrelay.Base.{
  ◌≡◌, refl, ap, ◌∙◌, inl, inr, Bool, true, false, not, ◌||◌, String, List, [], ◌∷◌, Option, none,
  some, Bool-cases, ok, >>=-eq-ok, ok-injective, if◌then◌else◌,
}
use modelrelay.Config.Relay.{ℤ, is_positive}
use modelrelay.Relay.Handshake.{Certificate, agent_identity_uri, cert_identity_matches}
use modelrelay.Certs.{
  Csr, Template, CertError, require, or_fail, is_only, validate_agent_csr, issue_from_csr,
  node_id_required, signature_invalid, common_name_mismatch, days_not_positive, not_a_csr,
  no_serial,
}

require-true : (b : Bool) (e : CertError) {u : Unit {0}} → require b e ≡ ok u → b ≡ true
require-true true e h = refl
require-true false e h = cc

pub or_fail-ok :
    {A : Type 0} (o : Option A) (e : CertError) (x : A) → or_fail o e ≡ ok x → o ≡ some x
or_fail-ok none e x h = cc
or_fail-ok (some y) e x h = ap some (ok-injective h)

is_only-eq : (want : String) (us : List String) → is_only want us ≡ true → us ≡ want ∷ []
is_only-eq want [] h = cc
is_only-eq want (u ∷ []) h = ap (λ v. v ∷ []) ((eq_iff u want).0 h)
is_only-eq want (u ∷ v ∷ us) h = cc

if-same : (b : Bool) → (if b || false then false else false) ≡ false
if-same true = refl
if-same false = refl

module _ (trim_space path_escape : String → String) where
  -- A certificate with the name and the URI of one node belongs to this node alone.
  cert_identity_matches-own :
      (cert : Certificate) (cn node_id : String)
      → cert.common_name ≡ cn
      → cert.uris ≡ agent_identity_uri trim_space path_escape cn ∷ []
      → cert_identity_matches trim_space path_escape cert node_id ≡ str_eq cn node_id
  unfolding cert_identity_matches
  cert_identity_matches-own cert cn node_id name uris = elim (Bool-cases (str_eq cn node_id)) [
    | inl same ↦
        let u : str_eq (agent_identity_uri trim_space path_escape cn)
              (agent_identity_uri trim_space path_escape node_id)
            ≡ true =
          (eq_iff _ _).1
            (ap (agent_identity_uri trim_space path_escape) ((eq_iff cn node_id).0 same)) in
        rw (name, uris, u, same) refl
    | inr other ↦
        rw (name, uris, other)
          (if-same (
            str_eq (agent_identity_uri trim_space path_escape cn)
              (agent_identity_uri trim_space path_escape node_id)))
  ]

  module _ (check_signature : Csr → Bool) where
    pub validate_agent_csr-ok :
        (csr : Csr) (cn : String) {u : Unit {0}}
        → validate_agent_csr trim_space path_escape check_signature csr cn ≡ ok u
        → (csr.common_name ≡ cn) × (csr.uris ≡ agent_identity_uri trim_space path_escape cn ∷ [])
    unfolding validate_agent_csr
    validate_agent_csr-ok csr cn h =
        let (_, _, h1) =
          >>=-eq-ok (require (not (str_eq (trim_space cn) "")) node_id_required) _ h in
        let (_, _, h2) = >>=-eq-ok (require (check_signature csr) signature_invalid) _ h1 in
        let (_, name, h3) =
          >>=-eq-ok (require (str_eq csr.common_name cn) common_name_mismatch) _ h2 in
        (
          (eq_iff csr.common_name cn).0 (require-true _ _ name),
          is_only-eq _ csr.uris (require-true _ _ h3),
        )

    -- If the signing function takes the names and the URIs of a certificate from its template, then a
    -- certificate that the CA issues for a node is taken by the relay's handshake for this node's and
    -- for no other's.
    pub cert_identity_matches-issue_from_csr :
        (create : Template → Option Certificate) (serial : Option String) (parsed : Option Csr)
        (cn : String) (days : ℤ) (cert : Certificate) (node_id : String)
        → ((t : Template) (c : Certificate)
            → create t ≡ some c
            → (c.common_name ≡ t.common_name) × (c.uris ≡ t.uris))
        → issue_from_csr trim_space path_escape check_signature create serial parsed cn days
          ≡ ok cert
        → cert_identity_matches trim_space path_escape cert node_id ≡ str_eq cn node_id
    unfolding issue_from_csr
    cert_identity_matches-issue_from_csr create serial parsed cn days cert node_id signs h =
        let (_, _, h1) = >>=-eq-ok (require (is_positive days) days_not_positive) _ h in
        let (csr, _, h2) = >>=-eq-ok (or_fail parsed not_a_csr) _ h1 in
        let (_, valid, h3) =
          >>=-eq-ok (validate_agent_csr trim_space path_escape check_signature csr cn) _ h2 in
        let (n, _, h4) = >>=-eq-ok (or_fail serial no_serial) _ h3 in
        let (name, uris) = validate_agent_csr-ok csr cn valid in
        let (name', uris') = signs _ cert (or_fail-ok _ _ cert h4) in
        cert_identity_matches-own cert cn node_id (name' ∙ name) (uris' ∙ uris)
