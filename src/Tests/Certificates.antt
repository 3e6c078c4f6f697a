-- ===== src/Tests/Certificates.antt =====
-- The theorem on issued certificates at a concrete input.
use text.Mathlib.Text.{◌==◌ as str_eq}
use modelrelay.Base.{
  ◌≡◌, refl, Bool, true, String, [], ◌∷◌, Option, some, ok, some-injective, ap, sym,
}
use modelrelay.Config.Relay.{pos}
use modelrelay.Relay.Handshake.{Certificate, agent_identity_uri, cert_identity_matches}
use modelrelay.Certs.{Csr, Template, validate_agent_csr, issue_from_csr}
use modelrelay.Certs.Issued.{cert_identity_matches-issue_from_csr}

abbrev unchanged : String → String
unchanged s = s

abbrev pub signed : Csr → Bool
signed csr = true

abbrev cert_of : Template → Certificate
cert_of t = record {
  common_name = t.common_name;
  uris = t.uris;
  serial = t.serial_number;
  subject = t.common_name;
  issuer = "ca";
  not_before = 0;
  not_after = 365;
  fingerprint = "f";
}

abbrev pub create : Template → Option Certificate
create t = some (cert_of t)

abbrev pub csr_a : Csr
csr_a = record { common_name = "a"; uris = "spiffe://modelrelay/agent/a" ∷ []; dns_names = [] }

abbrev pub cert_a : Certificate
cert_a = cert_of (record {
  serial_number = "7";
  common_name = "a";
  uris = "spiffe://modelrelay/agent/a" ∷ [];
  dns_names = [];
  days = pos 365;
})

issued :
    issue_from_csr unchanged unchanged signed create (some "7") (some csr_a) "a" (pos 365)
    ≡ ok cert_a
unfolding issue_from_csr validate_agent_csr agent_identity_uri
issued = refl

create-names :
    (t : Template) (c : Certificate)
    → create t ≡ some c
    → (c.common_name ≡ t.common_name) × (c.uris ≡ t.uris)
create-names t c e =
    let same : cert_of t ≡ c = some-injective e in
    (sym (ap (λ d. d.common_name) same), sym (ap (λ d. d.uris) same))

cert_identity_matches-issue_from_csr_example :
    cert_identity_matches unchanged unchanged cert_a "b" ≡ str_eq "a" "b"
cert_identity_matches-issue_from_csr_example =
    cert_identity_matches-issue_from_csr unchanged unchanged signed create (some "7") (some csr_a)
      "a" (pos 365) cert_a "b" create-names issued
