-- ===== src/Admin/Origin/Forged.antt =====
-- Headers that a peer forges do not help it against the lock of internal/relay/admin.go.
use text.Mathlib.Text.{◌==◌ as str_eq}
use modelrelay.Base.{
  ℕ, ◌+◌, ◌≤◌, ◌<◌, ◌≡◌, inl, inr, refl, sym, ap, ◌∙◌, Bool, false, not, ◌&&◌, String, List, [],
  ◌∷◌, map, length, All, Option, none, some, arith, lookup, string_eq, if-cases, Option-cases,
}
use modelrelay.Admin.{AdminState, reject_cross_origin}
use modelrelay.Admin.Login.{
  AdminUser, LoginBody, LoginRequest, record_login_fail, is_locked, open_session, check_user,
  check_body, with_body, handle_login,
}
use modelrelay.Admin.Login.Lockout.{fail_all, AreClose, last_of, handle_login-fail_all}
use modelrelay.Admin.Origin.{Incoming, direct_ip, is_trusted, from_trusted_proxy, client_ip}

-- A login, its time, and the connection that it comes on.
pub record Attempt : Type 0 where
  pub time : ℕ
  pub from : Incoming
  pub login : LoginRequest

abbrev pub sent_from : String → LoginRequest → LoginRequest
sent_from ip l = record l { ip = ip }

abbrev pub origin : Attempt → ℕ × Incoming
origin x = (x.time, x.from)

module _ {Ip : Type 0} (split_host : String → Option String) (parse_ip : String → Option Ip)
    (equal : Ip → Ip → Bool) (trusted : List Ip) (ip_text : Ip → String)
    (trim : String → String) where
  abbrev pub ip_of : Incoming → String
  ip_of = client_ip split_host parse_ip equal trusted ip_text trim

  -- A failure of each request, at its time and under the address that the service takes it to come from.
  unfoldable fail_each : List (ℕ × Incoming) → AdminState → AdminState
  unfolding record_login_fail
  fail_each [] a = a
  fail_each ((t, r) ∷ rest) a = fail_each rest (record_login_fail t (ip_of r) a)

  client_ip-direct :
      (h : String) (r : Incoming)
      → is_trusted split_host parse_ip equal trusted (parse_ip h) ≡ false
      → direct_ip split_host r ≡ h
      → ip_of r ≡ h
  unfolding client_ip from_trusted_proxy
  client_ip-direct h r out e =
      let untrusted : from_trusted_proxy split_host parse_ip equal trusted r ≡ false = rw e out in
      rw untrusted e

  fail_each-fail_all :
      (h : String) (rs : List (ℕ × Incoming)) (a : AdminState)
      → is_trusted split_host parse_ip equal trusted (parse_ip h) ≡ false
      → All (λ x. direct_ip split_host x.1 ≡ h) rs
      → fail_each rs a ≡ fail_all h (map (λ x. x.0) rs) a
  unfolding fail_each fail_all
  fail_each-fail_all h [] a out same = refl
  fail_each-fail_all h ((t, r) ∷ rest) a out same =
      rw (client_ip-direct h r out same.0)
        (fail_each-fail_all h rest (record_login_fail t h a) out same.1)

  handle_login-fail_each :
      (check_password : String → String → Bool) (turnstile_secret : String) (session_ttl : ℕ)
      (users : List (String × AdminUser)) (h : String) (t now : ℕ) (r0 r : Incoming)
      (rs : List (ℕ × Incoming)) (l : LoginRequest) (a : AdminState)
      → is_trusted split_host parse_ip equal trusted (parse_ip h) ≡ false
      → All (λ x. direct_ip split_host x.1 ≡ h) ((t, r0) ∷ rs)
      → direct_ip split_host r ≡ h
      → l.ip ≡ ip_of r
      → AreClose t (map (λ x. x.0) rs)
      → 4 ≤ length (map {A = ℕ × Incoming} {B = ℕ} (λ x. x.0) rs)
      → now < last_of t (map (λ x. x.0) rs) + 60000
      → l.request.method ≡ "POST"
      → reject_cross_origin l.request ≡ false
      → handle_login check_password trim turnstile_secret session_ttl users now l
          (fail_each ((t, r0) ∷ rs) a)
        ≡ (fail_each ((t, r0) ∷ rs) a, 429)
  handle_login-fail_each check_password turnstile_secret session_ttl users h t now r0 r rs l a out
        same peer named close many soon post origin =
      let from_h : l.ip ≡ h = named ∙ client_ip-direct h r out peer in
      rw (fail_each-fail_all h ((t, r0) ∷ rs) a out same, sym from_h)
        (handle_login-fail_all check_password trim turnstile_secret session_ttl users t now
          (map (λ x. x.0) rs) l a close many soon post origin)

  module _ (check_password : String → String → Bool) (turnstile_secret : String) (session_ttl : ℕ)
      (users : List (String × AdminUser)) where
    abbrev pub login : ℕ → LoginRequest → AdminState → AdminState × ℕ
    login = handle_login check_password trim turnstile_secret session_ttl users

    -- The login handler's answers to the attempts, each at its time.
    unfoldable pub login_each : List Attempt → AdminState → AdminState
    login_each [] a = a
    login_each (x ∷ xs) a = login_each xs (login x.time (sent_from (ip_of x.from) x.login) a).0

    -- The attempt has a body with a Turnstile token where a secret is set, and is answered 401.
    pub record IsFailed (x : Attempt) (a : AdminState) : Type 0 where
      pub body : LoginBody
      pub read : x.login.body ≡ some body
      pub token :
          (not (str_eq turnstile_secret "") && str_eq (trim body.turnstile_token) "") ≡ false
      pub answer : (login x.time (sent_from (ip_of x.from) x.login) a).1 ≡ 401

    abbrev pub AllFailed : List Attempt → AdminState → Type 0
    AllFailed [] a = Unit
    AllFailed (x ∷ xs) a =
        IsFailed x a × AllFailed xs (login x.time (sent_from (ip_of x.from) x.login) a).0

    abbrev Recorded : ℕ → String → AdminState → AdminState × ℕ → Type 0
    Recorded now ip a m = m.1 ≡ 401 → m.0 ≡ record_login_fail now ip a

    open_session-Recorded :
        (now : ℕ) (token : Option String) (user : AdminUser) (ip : String) (a : AdminState)
        → Recorded now ip a
            (open_session check_password trim turnstile_secret session_ttl users now token user a)
    unfolding open_session
    open_session-Recorded now none user ip a = λ e. absurd (omega (arith, e))
    open_session-Recorded now (some token) user ip a = λ e. absurd (omega (arith, e))

    check_user-Recorded :
        (now : ℕ) (l : LoginRequest) (body : LoginBody) (a : AdminState)
        → Recorded now l.ip a
            (check_user check_password trim turnstile_secret session_ttl users now l body a)
    unfolding check_user
    check_user-Recorded now l body a = elim (Option-cases (lookup body.username users)) [
      | inl unknown ↦ rw (check_user, unknown) (λ e. refl)
      | inr (user, known) ↦
          rw (check_user, known)
            (if-cases (Recorded now l.ip a) (not (check_password user.password_hash body.password))
              (λ _ e. refl) (λ _. open_session-Recorded now l.token user l.ip a))
    ]

    -- A login that is answered 401 with a token where one is asked for is recorded.
    handle_login-Recorded :
        (now : ℕ) (l : LoginRequest) (body : LoginBody) (a : AdminState)
        → l.body ≡ some body
        → (not (str_eq turnstile_secret "") && str_eq (trim body.turnstile_token) "") ≡ false
        → Recorded now l.ip a (login now l a)
    unfolding handle_login with_body check_body
    handle_login-Recorded now l body a sent token =
        if-cases P (not (str_eq l.request.method "POST")) (λ _ e. absurd (omega (arith, e)))
          λ _.
            if-cases P (reject_cross_origin l.request) (λ _ e. absurd (omega (arith, e)))
              λ _.
                if-cases P (is_locked now l.ip a) (λ _ e. absurd (omega (arith, e)))
                  λ _.
                    rw (sent, with_body, check_body, token)
                      (if-cases P (not (str_eq turnstile_secret "") && not l.turnstile_ok)
                        (λ _ e. refl) λ _. check_user-Recorded now l body a)
      where
        P : AdminState × ℕ → Type 0
        P = Recorded now l.ip a

    login_each-fail_each :
        (xs : List Attempt) (a : AdminState)
        → AllFailed xs a
        → login_each xs a ≡ fail_each (map origin xs) a
    unfolding login_each fail_each
    login_each-fail_each [] a h = refl
    login_each-fail_each (x ∷ xs) a (v, vs) =
        login_each-fail_each xs _ vs
        ∙ ap (fail_each (map origin xs)) (
            handle_login-Recorded x.time (sent_from (ip_of x.from) x.login) v.body a v.read v.token
              v.answer)

    -- If the host that a peer connects from is no trusted proxy, then after five or more logins of its
    -- that are answered 401, with a Turnstile token where a secret is set, each at most 60 seconds after
    -- the one before it, every same-origin POST login from this host within 60 seconds of the last is
    -- answered 429 and changes nothing, whatever forwarding headers each of these requests carries.
    pub handle_login-login_each :
        (h : String) (now : ℕ) (x : Attempt) (xs : List Attempt) (r : Incoming) (l : LoginRequest)
        (a : AdminState)
        → is_trusted split_host parse_ip equal trusted (parse_ip h) ≡ false
        → All (λ y. direct_ip split_host y.1 ≡ h) (map origin (x ∷ xs))
        → direct_ip split_host r ≡ h
        → AllFailed (x ∷ xs) a
        → AreClose x.time (map (λ y. y.0) (map origin xs))
        → 4 ≤ length (map {A = ℕ × Incoming} {B = ℕ} (λ y. y.0) (map origin xs))
        → now < last_of x.time (map (λ y. y.0) (map origin xs)) + 60000
        → l.request.method ≡ "POST"
        → reject_cross_origin l.request ≡ false
        → login now (sent_from (ip_of r) l) (login_each (x ∷ xs) a) ≡ (login_each (x ∷ xs) a, 429)
    handle_login-login_each h now x xs r l a out same peer failed close many soon post own =
        rw (login_each-fail_each (x ∷ xs) a failed) (
          handle_login-fail_each check_password turnstile_secret session_ttl users h x.time now
            x.from r (map origin xs) (sent_from (ip_of r) l) a out same peer refl close many soon
            post own)
