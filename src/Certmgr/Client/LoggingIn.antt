-- ===== src/Certmgr/Client/LoggingIn.antt =====
-- The login of the certificate manager's client (internal/certmgr/client.go) at the relay
-- (internal/relay/admin.go).
use text.Mathlib.Text.{◌==◌ as str_eq}
use modelrelay.Base.{ℕ, ◌≡◌, ◌≢◌, refl, Bool, false, not, String, List, some, arith, if-cases}
use modelrelay.Admin.{AdminState, reject_cross_origin}
use modelrelay.Admin.Login.{AdminUser, LoginBody, LoginRequest, handle_login, is_locked}

-- What the relay reads of the body that the client sends: it has no turnstile_token.
abbrev pub login_body : String → String → LoginBody
login_body username password = record {
  username = username;
  password = password;
  turnstile_token = "";
}

abbrev pub IsRefused : AdminState → AdminState × ℕ → Type 0
IsRefused a (b, status) = (status ≢ 200) × (b.sessions ≡ a.sessions)

-- If the relay has a Turnstile secret, every login of the certificate manager's client is refused,
-- whatever account and password it gives, and opens no session.
pub handle_login-login_body :
    (check_password : String → String → Bool) (trim : String → String) (turnstile_secret : String)
    (session_ttl : ℕ) (users : List (String × AdminUser)) (now : ℕ) (l : LoginRequest)
    (a : AdminState) (username password : String)
    → str_eq turnstile_secret "" ≡ false
    → trim "" ≡ ""
    → l.body ≡ some (login_body username password)
    → IsRefused a (handle_login check_password trim turnstile_secret session_ttl users now l a)
unfolding handle_login
handle_login-login_body check_password trim turnstile_secret session_ttl users now l a username
      password secret blank sent =
    if-cases (IsRefused a) (not (str_eq l.request.method "POST"))
      (λ _. (λ e. omega (arith, e), refl))
      λ _.
        if-cases (IsRefused a) (reject_cross_origin l.request) (λ _. (λ e. omega (arith, e), refl))
          λ _.
            if-cases (IsRefused a) (is_locked now l.ip a) (λ _. (λ e. omega (arith, e), refl))
              λ _. rw (sent, secret, blank) (λ e. omega (arith, e), refl)
