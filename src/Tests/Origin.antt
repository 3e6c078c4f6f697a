-- ===== src/Tests/Origin.antt =====
-- The theorem on forged forwarding headers at a concrete input.
use text.Mathlib.Text.{◌==◌ as str_eq}
use modelrelay.Base.{
  ℕ, ◌≡◌, refl, Bool, false, String, List, [], ◌∷◌, All, Option, none, some, arith, lookup, insert,
  string_eq,
}
use modelrelay.Admin.{AdminState, reject_cross_origin}
use modelrelay.Admin.Login.{
  LoginBody, handle_login, with_body, check_body, check_user, record_login_fail, is_locked,
}
use modelrelay.Admin.Origin.{Incoming, direct_ip, from_trusted_proxy, client_ip}
use modelrelay.Admin.Origin.Forged.{
  Attempt, sent_from, IsFailed, AllFailed, login_each, handle_login-login_each,
}
use modelrelay.Tests.Admin.{an_admin, plain, as_is, the_users, a_login, same_origin}

-- Texts of addresses stand for themselves; the proxy is on the host itself.
abbrev whole : String → Option String
whole address = none

abbrev parsed : String → Option String
parsed s = some s

abbrev same_ip : String → String → Bool
same_ip p q = str_eq p q

abbrev proxies : List String
proxies = "127.0.0.1" ∷ []

-- A request of 10.0.0.1 that claims to be forwarded for `claimed`.
abbrev forged : String → Incoming
forged claimed = record {
  remote_addr = "10.0.0.1";
  cf_connecting_ip = claimed;
  x_forwarded_for = claimed;
  x_forwarded_proto = "https";
  has_tls = false;
}

abbrev attempts : List (ℕ × Incoming)
attempts =
    (2, forged "1.1.1.2") ∷ (3, forged "1.1.1.3") ∷ (4, forged "") ∷ (5, forged "1.1.1.5") ∷ []

proxied_ip :
    client_ip whole parsed same_ip proxies as_is as_is
      (record (forged "") { remote_addr = "127.0.0.1"; x_forwarded_for = "7.7.7.7,8.8.8.8" })
    ≡ "7.7.7.7"
unfolding client_ip from_trusted_proxy direct_ip
proxied_ip = refl

single_ip :
    client_ip whole parsed same_ip proxies as_is as_is
      (record (forged "") { remote_addr = "127.0.0.1"; x_forwarded_for = "7.7.7.7" })
    ≡ "7.7.7.7"
unfolding client_ip from_trusted_proxy direct_ip
single_ip = refl

forged-host : All (λ x. direct_ip whole x.1 ≡ "10.0.0.1") ((1, forged "9.9.9.9") ∷ attempts)
unfolding direct_ip
forged-host = (refl, (refl, (refl, (refl, (refl, tt)))))

forged-direct_ip : direct_ip whole (forged "6.6.6.6") ≡ "10.0.0.1"
unfolding direct_ip
forged-direct_ip = refl

abbrev wrong_body : LoginBody
wrong_body = record { username = "root"; password = "guess"; turnstile_token = "" }

-- A guess at time `t` under the header `claimed`.
abbrev guess : ℕ → String → Attempt
guess t claimed = record {
  time = t;
  from = forged claimed;
  login = record a_login { body = some wrong_body };
}

abbrev guesses : List Attempt
guesses = guess 2 "1.1.1.2" ∷ guess 3 "1.1.1.3" ∷ guess 4 "" ∷ guess 5 "1.1.1.5" ∷ []

guesses-AllFailed :
    AllFailed whole parsed same_ip proxies as_is as_is plain "" 60 the_users
      (guess 1 "9.9.9.9" ∷ guesses)
      an_admin
unfolding handle_login with_body check_body check_user record_login_fail is_locked
    reject_cross_origin client_ip from_trusted_proxy direct_ip lookup insert
guesses-AllFailed = (
  failed refl refl,
  (failed refl refl, (failed refl refl, (failed refl refl, (failed refl refl, tt)))),
)
  where
    failed :
        {x : Attempt} {a : AdminState}
        → x.login.body ≡ some wrong_body
        → (handle_login plain as_is "" 60 the_users x.time
            (sent_from (client_ip whole parsed same_ip proxies as_is as_is x.from) x.login)
            a).1
          ≡ 401
        → IsFailed whole parsed same_ip proxies as_is as_is plain "" 60 the_users x a
    failed read answer = record { body = wrong_body; read = read; token = refl; answer = answer }

handle_login-login_each_example :
    let a =
      login_each whole parsed same_ip proxies as_is as_is plain "" 60 the_users
        (guess 1 "9.9.9.9" ∷ guesses)
        an_admin in
    handle_login plain as_is "" 60 the_users 50
      (sent_from (client_ip whole parsed same_ip proxies as_is as_is (forged "6.6.6.6")) a_login)
      a
    ≡ (a, 429)
handle_login-login_each_example =
    handle_login-login_each whole parsed same_ip proxies as_is as_is plain "" 60 the_users
      "10.0.0.1" 50 (guess 1 "9.9.9.9") guesses (forged "6.6.6.6") a_login an_admin refl forged-host
      forged-direct_ip guesses-AllFailed
      (omega arith, (omega arith, (omega arith, (omega arith, tt)))) (omega arith) (omega arith)
      refl same_origin
