-- ===== src/Admin/Login.antt =====
-- handleLogin and recordLoginFail of internal/relay/admin.go. The client's address (clientIP), the
-- decoded body, Turnstile's answer and the random token are what the libraries return for the
-- request; bcrypt's check is a parameter. The accounts do not change here.
pub mod Lockout
pub mod Granting
use text.Mathlib.Text.{◌==◌ as str_eq}
use modelrelay.Base.{
  ℕ, ◌+◌, Bool, true, false, not, ◌&&◌, String, List, Option, none, some, ltb, leb, lookup, insert,
  string_eq, if◌then◌else◌,
}
use modelrelay.Admin.{AdminState, Session, LoginFail, Request, reject_cross_origin}

pub record AdminUser : Type 0 where
  pub username : String
  pub password_hash : String
  pub role : String

pub record LoginBody : Type 0 where
  pub username : String
  pub password : String
  pub turnstile_token : String

pub record LoginRequest : Type 0 where
  pub request : Request
  pub ip : String
  pub body : Option LoginBody
  pub turnstile_ok : Bool
  pub token : Option String

-- The zero value of a missing entry: its time is before every time.
abbrev pub fail_of : Option LoginFail → LoginFail
fail_of none = record { count = 0; until = 0 }
fail_of (some f) = f

abbrev pub next_fail : ℕ → LoginFail → LoginFail
next_fail now f = record {
  count = (if ltb f.until now then 0 else f.count) + 1;
  until = now + 60000;
}

unfoldable pub record_login_fail : ℕ → String → AdminState → AdminState
record_login_fail now ip a = record a {
  login_fails = insert ip (next_fail now (fail_of (lookup ip a.login_fails))) a.login_fails;
}

unfoldable pub is_locked : ℕ → String → AdminState → Bool
is_locked now ip a = let f = fail_of (lookup ip a.login_fails) in leb 5 f.count && ltb now f.until

-- `trim` is strings.TrimSpace; `turnstile_secret` and `session_ttl` are the server's options.
module _ (check_password : String → String → Bool) (trim : String → String)
    (turnstile_secret : String) (session_ttl : ℕ) (users : List (String × AdminUser)) where
  unfoldable pub open_session : ℕ → Option String → AdminUser → AdminState → AdminState × ℕ
  open_session now none user a = (a, 500)
  open_session now (some token) user a = (
    record a {
      sessions =
          insert token
            (record { username = user.username; role = user.role; expiry = now + session_ttl })
            a.sessions;
    },
    200,
  )

  unfoldable pub check_user : ℕ → LoginRequest → LoginBody → AdminState → AdminState × ℕ
  unfolding open_session record_login_fail
  check_user now l body a = elim (lookup body.username users) [
    | none ↦ (record_login_fail now l.ip a, 401)
    | some user ↦
        if not (check_password user.password_hash body.password)
        then (record_login_fail now l.ip a, 401)
        else open_session now l.token user a
  ]

  unfoldable pub check_body : ℕ → LoginRequest → LoginBody → AdminState → AdminState × ℕ
  unfolding check_user record_login_fail
  check_body now l body a =
      if not (str_eq turnstile_secret "") && str_eq (trim body.turnstile_token) ""
      then (a, 401)
      else if not (str_eq turnstile_secret "") && not l.turnstile_ok
      then (record_login_fail now l.ip a, 401)
      else check_user now l body a

  unfoldable pub with_body : ℕ → LoginRequest → Option LoginBody → AdminState → AdminState × ℕ
  unfolding check_body
  with_body now l none a = (a, 400)
  with_body now l (some body) a = check_body now l body a

  unfoldable pub handle_login : ℕ → LoginRequest → AdminState → AdminState × ℕ
  unfolding with_body is_locked
  handle_login now l a =
      if not (str_eq l.request.method "POST")
      then (a, 405)
      else if reject_cross_origin l.request
      then (a, 403)
      else if is_locked now l.ip a
      then (a, 429)
      else with_body now l l.body a
