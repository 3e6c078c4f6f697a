-- ===== src/Tests/Admin.antt =====
-- The theorems on the admin service and the store at concrete inputs.
use text.Mathlib.Text.{◌==◌ as str_eq}
use modelrelay.Base.{
  ◌≡◌, refl, Bool, true, false, String, List, [], ◌∷◌, some, none, lookup, insert, string_eq,
}
use modelrelay.Store.Certs.{Store, CertMeta, active, is_cert_revoked, revoke_cert, revoked_row}
use modelrelay.Store.Certs.Revocation.{ensures, prunes_audit, calls, calls-revoked}
use modelrelay.Admin.{AdminState, Session, Request, session_from_req, reject_cross_origin}
use modelrelay.Config.Relay.{pos}
use modelrelay.Admin.Login.{AdminUser, LoginRequest, handle_login}
use modelrelay.Admin.Login.Granting.{Granted, handle_login-Granted}
use modelrelay.Admin.Api.{Decoders, handle_api}
use modelrelay.Admin.Api.Authority.{Outcome, handle_api-Outcome, handle_api-readonly_retention}
use modelrelay.Relay.Connection.Kept.{new_server}
use modelrelay.Tests.{some_node}

abbrev pub a_cert : CertMeta
a_cert = record {
  node_id = "a";
  serial = "s";
  subject = "";
  issuer = "";
  not_before = 0;
  not_after = 9;
  status = active;
  fingerprint = "";
  revoked_at = none;
  revoke_reason = "";
  created_at = 0;
}

abbrev pub a_store : Store
a_store = record { certs = ("s", a_cert) ∷ []; audit = []; summaries = [] }

abbrev revoked_store : Store
revoked_store = record {
  certs = ("s", revoked_row 5 "lost" a_cert) ∷ [];
  audit = [];
  summaries = [];
}

revocation : revoke_cert 5 "s" "lost" a_store ≡ some revoked_store
unfolding revoke_cert lookup insert
revocation = refl

known_revoked : is_cert_revoked revoked_store "s" ≡ true
unfolding is_cert_revoked lookup
known_revoked = refl

calls-revoked_example :
    is_cert_revoked
      (calls (revoked_store, []) (ensures 7 a_cert ∷ prunes_audit (λ t. []) (pos 1) 3 ∷ [])).0
      "s"
    ≡ true
calls-revoked_example =
    calls-revoked revoked_store [] (ensures 7 a_cert ∷ prunes_audit (λ t. []) (pos 1) 3 ∷ []) "s"
      known_revoked

abbrev pub a_session : Session
a_session = record { username = "eve"; role = "readonly"; expiry = 1000 }

abbrev pub an_admin : AdminState
an_admin = record {
  server = new_server (λ p. some_node);
  store = none;
  sessions = ("t", a_session) ∷ [];
  login_fails = [];
  keep_prompt = false;
  retention_days = 30;
}

abbrev get_retention : Request
get_retention = record {
  method = "GET";
  path = "/api/settings/retention";
  host = "h";
  origin = "";
  cookie = some "t";
  body = [];
}

abbrev reads_one : Decoders
reads_one = record { concurrency = λ b. none; serial = λ b. none; retention = λ b. some (true, 1) }

logged_in : (session_from_req 10 get_retention an_admin).1 ≡ some a_session
unfolding session_from_req lookup
logged_in = refl

handle_api-Outcome_example :
    Outcome 10 get_retention an_admin (handle_api reads_one 10 true get_retention an_admin).0
handle_api-Outcome_example = handle_api-Outcome reads_one 10 true get_retention an_admin

handle_api-readonly_retention_example :
    ((handle_api reads_one 10 true get_retention an_admin).1 ≡ 200)
    × ((handle_api reads_one 10 true get_retention an_admin).0.keep_prompt ≡ true)
    × ((handle_api reads_one 10 true get_retention an_admin).0.retention_days ≡ 1)
handle_api-readonly_retention_example =
    handle_api-readonly_retention reads_one 10 1 true true get_retention an_admin a_session refl
      refl logged_in refl refl

abbrev pub plain : String → String → Bool
plain hash password = str_eq hash password

abbrev pub as_is : String → String
as_is text = text

abbrev pub the_users : List (String × AdminUser)
the_users = ("root", record { username = "root"; password_hash = "pw"; role = "admin" }) ∷ []

abbrev pub a_login : LoginRequest
a_login = record {
  request = record {
    method = "POST";
    path = "/api/login";
    host = "h";
    origin = "https://h";
    cookie = none;
    body = [];
  };
  ip = "10.0.0.1";
  body = some (record { username = "root"; password = "pw"; turnstile_token = "" });
  turnstile_ok = false;
  token = some "u";
}

pub same_origin : reject_cross_origin a_login.request ≡ false
unfolding reject_cross_origin
same_origin = refl

handle_login-Granted_example :
    let (b, status) = handle_login plain as_is "" 60 the_users 50 a_login an_admin in
    Granted plain as_is "" 60 the_users 50 a_login an_admin b status
handle_login-Granted_example = handle_login-Granted plain as_is "" 60 the_users 50 a_login an_admin
