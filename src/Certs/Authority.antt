-- ===== src/Certs/Authority.antt =====
-- The other functions of internal/certs/certs.go: CA certificates, requests, server certificates and
-- the check of a client's certificate. Making keys, signing and parsing are parameters.
use text.Mathlib.Text.{◌==◌ as str_eq}
use Prim.Native.String.{◌++◌, find, len}
use modelrelay.Base.{
  ℕ, Bool, true, false, not, ◌&&◌, String, List, [], ◌∷◌, Option, none, some, any, ltb, leb, length,
  if◌then◌else◌, Result, ok, err, ◌>>=◌, ◌>>◌,
}
use modelrelay.Config.Relay.{ℤ, is_positive}
use modelrelay.Relay.Handshake.{Certificate, agent_identity_uri}
use modelrelay.Certs.{Csr}

pub data AuthorityError : Type 0 where
  days_not_positive name_required no_key no_serial not_signed : AuthorityError
  bad_certificate bad_key bad_pool not_verified identity_mismatch : AuthorityError

abbrev pub demand : Bool → AuthorityError → Result AuthorityError (Unit {0})
demand true e = ok tt
demand false e = err e

abbrev pub given : {A : Type 0} → Option A → AuthorityError → Result AuthorityError A
given none e = err e
given (some x) e = ok x

-- What is signed: a CA's certificate, or a server's with its names and addresses.
pub record Signing : Type 0 where
  pub serial_number : String
  pub common_name : String
  pub days : ℤ
  pub is_ca : Bool
  pub server_auth : Bool
  pub ip_addresses : List String
  pub dns_names : List String

-- A certificate and its key, as PEM.
pub record KeyPair : Type 0 where
  pub cert_pem : List ℕ
  pub key_pem : List ℕ

-- `sign` makes the certificate of a new key, `none` where it fails.
module _ {Key : Type 0} (trim_space : String → String) (new_key : Option Key)
    (serial : Option String) (sign : Signing → Key → Option KeyPair) where
  unfoldable pub create_ca : String → ℤ → Result AuthorityError KeyPair
  create_ca cn days = do
    demand (is_positive days) days_not_positive
    demand (not (str_eq (trim_space cn) "")) name_required
    key ← given new_key no_key
    number ← given serial no_serial
    given
        (sign
          (record {
            serial_number = number;
            common_name = cn;
            days = days;
            is_ca = true;
            server_auth = false;
            ip_addresses = [];
            dns_names = [];
          })
          key)
        not_signed

  unfoldable pub issue_server_cert :
      String → List String → List String → ℤ → Result AuthorityError KeyPair
  issue_server_cert cn ips dns_names days = do
    demand (is_positive days) days_not_positive
    demand (not (str_eq (trim_space cn) "")) name_required
    key ← given new_key no_key
    number ← given serial no_serial
    given
        (sign
          (record {
            serial_number = number;
            common_name = cn;
            days = days;
            is_ca = false;
            server_auth = true;
            ip_addresses = ips;
            dns_names = dns_names;
          })
          key)
        not_signed

-- The request of GenerateCSR; `escaped_path` is URL.EscapedPath, which String of its URI calls.
unfoldable pub generate_csr : (String → String) → (String → String) → String → Csr
generate_csr path_escape escaped_path cn = record {
  common_name = cn;
  uris = ("spiffe://modelrelay" ++ escaped_path ("/agent/" ++ path_escape cn)) ∷ [];
  dns_names = [];
}

-- LoadCA: the certificate and the key parse, and the pool takes the certificate.
unfoldable pub load_ca :
    (List ℕ → Bool)
    → (List ℕ → Bool)
    → (List ℕ → Bool)
    → List ℕ
    → List ℕ
    → Result AuthorityError (Unit {0})
load_ca parses_cert parses_key pools cert_pem key_pem = do
  demand (parses_cert cert_pem) bad_certificate
  demand (parses_key key_pem) bad_key
  demand (pools cert_pem) bad_pool

abbrev pub contains : String → String → Bool
contains s t = leb (find s t) (len s)

-- `nul` is the text of the character 0.
module _ (trim_space path_escape : String → String) (nul : String) where
  unfoldable pub identity_matches : Certificate → String → Bool
  unfolding agent_identity_uri
  identity_matches cert node_id =
      if ltb 0 (length cert.uris)
      then (if any (λ u. str_eq u (agent_identity_uri trim_space path_escape node_id)) cert.uris
          then str_eq cert.common_name node_id
          else false)
      else str_eq cert.common_name node_id && not (contains node_id nul)

  -- `verifies`: the chain, the time and the use of the certificate.
  unfoldable pub verify_client_cert :
      Option Certificate → (Certificate → Bool) → String → Result AuthorityError (Unit {0})
  unfolding identity_matches
  verify_client_cert parsed verifies node_id = do
    cert ← given parsed bad_certificate
    demand (verifies cert) not_verified
    demand (identity_matches cert node_id) identity_mismatch
