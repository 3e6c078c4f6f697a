-- ===== src/Admin/Login/Granting.antt =====
-- Who gets a session (handleLogin of internal/relay/admin.go).
use text.Mathlib.Text.{◌==◌ as str_eq}
use modelrelay.Base.{
  ℕ, ◌+◌, ◌≡◌, refl, Bool, true, false, not, ◌&&◌, String, List, Option, none, some, arith, lookup,
  insert, string_eq, if-cases, Option-cases, inl, inr,
}
use modelrelay.Admin.{AdminState, reject_cross_origin}
use modelrelay.Admin.Login.{
  AdminUser, LoginBody, LoginRequest, record_login_fail, is_locked, open_session, check_user,
  with_body, check_body, handle_login,
}

module _ (check_password : String → String → Bool) (trim : String → String)
    (turnstile_secret : String) (session_ttl : ℕ) (users : List (String × AdminUser)) where
  -- A login leaves the sessions alone, or it opens one for an account whose password it knows.
  pub data Granted (now : ℕ) (l : LoginRequest) (a b : AdminState) (status : ℕ) : Type 0 where
    denied : b.sessions ≡ a.sessions → (status ≡ 200 → ⊥) → Granted now l a b status
    granted :
        (body : LoginBody) (user : AdminUser) (token : String)
        → status ≡ 200
        → l.body ≡ some body
        → lookup body.username users ≡ some user
        → check_password user.password_hash body.password ≡ true
        → is_locked now l.ip a ≡ false
        → reject_cross_origin l.request ≡ false
        → (str_eq turnstile_secret "" ≡ false → l.turnstile_ok ≡ true)
        → b.sessions
          ≡ insert token
              (record { username = user.username; role = user.role; expiry = now + session_ttl })
              a.sessions
        → Granted now l a b status

  module _ (now : ℕ) (l : LoginRequest) (a : AdminState) where
    After : AdminState × ℕ → Type 0
    After answer = Granted now l a answer.0 answer.1

    denied_401 : After (record_login_fail now l.ip a, 401)
    unfolding After record_login_fail
    denied_401 = denied refl (λ h. absurd (omega arith))

    module _ (origin : reject_cross_origin l.request ≡ false) (free : is_locked now l.ip a ≡ false)
        (body : LoginBody) (decoded : l.body ≡ some body)
        (human : str_eq turnstile_secret "" ≡ false → l.turnstile_ok ≡ true) where
      opened :
          (user : AdminUser) (token : Option String)
          → lookup body.username users ≡ some user
          → check_password user.password_hash body.password ≡ true
          → After
              (open_session check_password trim turnstile_secret session_ttl users now token user a)
      unfolding After open_session
      opened user none known good = denied refl (λ h. absurd (omega arith))
      opened user (some token) known good =
          granted body user token refl decoded known good free origin human refl

      checked :
          After (check_user check_password trim turnstile_secret session_ttl users now l body a)
      unfolding check_user
      checked = elim (Option-cases (lookup body.username users)) [
        | inl unknown ↦ rw (check_user, unknown) denied_401
        | inr (user, known) ↦
            rw (check_user, known)
              (if-cases After (not (check_password user.password_hash body.password))
                (λ _. denied_401) λ good. opened user l.token known (ground arith))
      ]

    module _ (origin : reject_cross_origin l.request ≡ false)
        (free : is_locked now l.ip a ≡ false) where
      decoded_body :
          (o : Option LoginBody)
          → l.body ≡ o
          → After (with_body check_password trim turnstile_secret session_ttl users now l o a)
      unfolding with_body After check_body
      decoded_body none bad = denied refl (λ h. absurd (omega arith))
      decoded_body (some body) decoded =
          if-cases After (not (str_eq turnstile_secret "") && str_eq (trim body.turnstile_token) "")
            (λ _. denied refl (λ h. absurd (omega arith)))
            λ _.
              if-cases After (not (str_eq turnstile_secret "") && not l.turnstile_ok)
                (λ _. denied_401) λ human. checked origin free body decoded (λ secret. ground arith)

  -- A login answers 200 only if it comes from the same origin and an address that is not locked,
  -- names an account with a password that bcrypt accepts, and passed Turnstile where a secret is
  -- set; it then adds one session, for this account and its role, which ends after the configured
  -- time. Every other answer leaves the sessions as they were.
  pub handle_login-Granted :
      (now : ℕ) (l : LoginRequest) (a : AdminState)
      → (let (b, status) =
            handle_login check_password trim turnstile_secret session_ttl users now l a in
          Granted now l a b status)
  unfolding handle_login After
  handle_login-Granted now l a =
      if-cases (After now l a) (not (str_eq l.request.method "POST"))
        (λ _. denied refl (λ h. absurd (omega arith)))
        λ _.
          if-cases (After now l a) (reject_cross_origin l.request)
            (λ _. denied refl (λ h. absurd (omega arith)))
            λ origin.
              if-cases (After now l a) (is_locked now l.ip a)
                (λ _. denied refl (λ h. absurd (omega arith)))
                λ free. decoded_body now l a origin free l.body refl
