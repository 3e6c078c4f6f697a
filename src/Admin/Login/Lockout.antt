-- ===== src/Admin/Login/Lockout.antt =====
-- The lock after failed logins (recordLoginFail and handleLogin of internal/relay/admin.go).
use text.Mathlib.Text.{◌==◌ as str_eq}
use modelrelay.Base.{
  ℕ, ◌+◌, ◌≤◌, ◌<◌, ◌≡◌, refl, Bool, true, false, String, List, [], ◌∷◌, arith, lookup,
  lookup-insert_self, string_eq, length,
}
use modelrelay.Admin.{AdminState, LoginFail, reject_cross_origin}
use modelrelay.Admin.Login.{
  AdminUser, LoginRequest, fail_of, next_fail, record_login_fail, is_locked, handle_login,
}

-- Failures from one address, in their order.
unfoldable pub fail_all : String → List ℕ → AdminState → AdminState
unfolding record_login_fail
fail_all ip [] a = a
fail_all ip (t ∷ ts) a = fail_all ip ts (record_login_fail t ip a)

-- Each failure comes at most 60 seconds after the one before it.
abbrev pub AreClose : ℕ → List ℕ → Type 0
AreClose prev [] = Unit
AreClose prev (t ∷ ts) = (t ≤ prev + 60000) × AreClose t ts

abbrev pub last_of : ℕ → List ℕ → ℕ
last_of prev [] = prev
last_of prev (t ∷ ts) = last_of t ts

abbrev entry : String → AdminState → LoginFail
entry ip a = fail_of (lookup ip a.login_fails)

recorded :
    (t : ℕ) (ip : String) (a : AdminState)
    → entry ip (record_login_fail t ip a) ≡ next_fail t (entry ip a)
unfolding record_login_fail
recorded t ip a = rw (lookup-insert_self ip (next_fail t (entry ip a)) a.login_fails)

record Counted (n prev : ℕ) (f : LoginFail) : Type 0 where
  enough : n ≤ f.count
  window : f.until ≡ prev + 60000

next_fail-Counted :
    (n prev t : ℕ) (f : LoginFail)
    → t ≤ prev + 60000
    → Counted n prev f
    → Counted (n + 1) t (next_fail t f)
next_fail-Counted n prev t f close c = record {
  enough = ground (arith, c.enough, c.window);
  window = refl;
}

first_fail : (t : ℕ) (f : LoginFail) → Counted 1 t (next_fail t f)
first_fail t f = record { enough = ground arith; window = refl }

fail_all-Counted :
    (ip : String) (n prev : ℕ) (ts : List ℕ) (a : AdminState)
    → AreClose prev ts
    → Counted n prev (entry ip a)
    → Counted (n + length ts) (last_of prev ts) (entry ip (fail_all ip ts a))
unfolding fail_all
fail_all-Counted ip n prev [] a close c = let e : n + length {A = ℕ} [] ≡ n = omega arith in rw e c
fail_all-Counted ip n prev (t ∷ ts) a close c =
    let e : n + length (t ∷ ts) ≡ n + 1 + length ts = omega arith in
    rw e (
      fail_all-Counted ip (n + 1) t ts (record_login_fail t ip a) close.1
        (rw (recorded t ip a) (next_fail-Counted n prev t (entry ip a) close.0 c)))

Counted-is_locked :
    (n prev now : ℕ) (ip : String) (a : AdminState)
    → 5 ≤ n
    → now < prev + 60000
    → Counted n prev (entry ip a)
    → is_locked now ip a ≡ true
unfolding is_locked
Counted-is_locked n prev now ip a many soon c = ground (arith, c.enough, c.window)

after :
    (t : ℕ) (ts : List ℕ) (ip : String) (a : AdminState)
    → AreClose t ts
    → Counted (1 + length ts) (last_of t ts) (entry ip (fail_all ip (t ∷ ts) a))
unfolding fail_all
after t ts ip a close =
    fail_all-Counted ip 1 t ts (record_login_fail t ip a) close
      (rw (recorded t ip a) (first_fail t (entry ip a)))

-- After five or more failures from an address, each at most 60 seconds after the one before it,
-- every same-origin POST login from this address within 60 seconds of the last failure is answered
-- 429 and changes nothing, whatever account and password it names.
pub handle_login-fail_all :
    (check_password : String → String → Bool) (trim : String → String) (turnstile_secret : String)
    (session_ttl : ℕ) (users : List (String × AdminUser)) (t now : ℕ) (ts : List ℕ)
    (l : LoginRequest) (a : AdminState)
    → AreClose t ts
    → 4 ≤ length ts
    → now < last_of t ts + 60000
    → l.request.method ≡ "POST"
    → reject_cross_origin l.request ≡ false
    → handle_login check_password trim turnstile_secret session_ttl users now l
        (fail_all l.ip (t ∷ ts) a)
      ≡ (fail_all l.ip (t ∷ ts) a, 429)
unfolding handle_login
handle_login-fail_all check_password trim turnstile_secret session_ttl users t now ts l a close many
      soon post origin =
    let locked : is_locked now l.ip (fail_all l.ip (t ∷ ts) a) ≡ true =
      Counted-is_locked (1 + length ts) (last_of t ts) now l.ip (fail_all l.ip (t ∷ ts) a)
        (omega arith) soon (after t ts l.ip a close) in
    let posted : str_eq l.request.method "POST" ≡ true = rw post in
    rw (handle_login, posted, origin, locked)
