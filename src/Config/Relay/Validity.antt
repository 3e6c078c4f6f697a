-- ===== src/Config/Relay/Validity.antt =====
-- What a validated configuration satisfies (internal/config/relay.go).
use text.Mathlib.Text.{◌==◌ as str_eq}
use modelrelay.Base.{
  ◌≡◌, refl, ap, subst, Bool, true, false, not, ◌&&◌, ◌||◌, String, arith, if◌then◌else◌, Result,
  ok, err, if-cases, ok-injective,
}
use modelrelay.Config.Relay.{
  Relay, is_positive, is_negative, pos, ℤ, fill_in, validate, ConfigError, differ, is_set,
}

err_ok : {e : ConfigError} {r : Relay} → err e ≡ ok r → ⊥
err_ok h = cc

positive_or_30 : (n : ℤ) → is_positive (if is_positive n then n else pos 30) ≡ true
positive_or_30 n = if-cases (λ m. is_positive m ≡ true) (is_positive n) (λ h. h) (λ _. refl)

named_level : (level : String) → str_eq (if str_eq level "" then "info" else level) "" ≡ false
named_level level = if-cases (λ l. str_eq l "" ≡ false) (str_eq level "") (λ _. refl) (λ h. h)

module _ (splits : String → Bool) (trim : String → String) where
  pub record IsValid (r : Relay) : Type 0 where
    pub relay_id : str_eq r.relay_id "" ≡ false
    pub http_listen : splits r.http_listen ≡ true
    pub wss_listen : splits r.wss_listen ≡ true
    pub tls_cert : str_eq r.tls_cert "" ≡ false
    pub tls_key : str_eq r.tls_key "" ≡ false
    pub agent_ca : str_eq r.agent_ca "" ≡ false
    pub internal_token :
        r.internal_auth.enabled ≡ true → str_eq (trim r.internal_auth.token) "" ≡ false
    pub turnstile :
        str_eq (trim r.admin.turnstile.site_key) "" ≡ str_eq (trim r.admin.turnstile.secret_key) ""
    pub max_concurrency : is_positive r.limits.max_concurrency ≡ true
    pub queue_length : is_negative r.limits.queue_length ≡ false
    pub session_ttl_min : is_positive r.admin.session_ttl_min ≡ true
    pub retention_days : is_positive r.retention.retention_days ≡ true
    pub log_level : str_eq r.log_level "" ≡ false

  -- Settings that validation accepts are valid as it returns them.
  validate-IsValid : (r r' : Relay) → validate splits trim r ≡ ok r' → IsValid r'
  unfolding validate fill_in
  validate-IsValid r r' =
      if-cases Valid (str_eq r.relay_id "") (λ _ e. absurd (err_ok e))
        λ id.
          if-cases Valid (not (splits r.http_listen)) (λ _ e. absurd (err_ok e))
            λ http.
              if-cases Valid (not (splits r.wss_listen)) (λ _ e. absurd (err_ok e))
                λ wss.
                  if-cases Valid (str_eq r.tls_cert "" || str_eq r.tls_key "")
                    (λ _ e. absurd (err_ok e))
                    λ tls.
                      if-cases Valid (str_eq r.agent_ca "") (λ _ e. absurd (err_ok e))
                        λ ca.
                          if-cases Valid
                            (r.internal_auth.enabled && str_eq (trim r.internal_auth.token) "")
                            (λ _ e. absurd (err_ok e))
                            λ token.
                              if-cases Valid
                                (differ splits trim (is_set splits trim r.admin.turnstile.site_key)
                                  (is_set splits trim r.admin.turnstile.secret_key))
                                (λ _ e. absurd (err_ok e))
                                λ pair.
                                  if-cases Valid
                                    (not (is_positive r.limits.max_concurrency)
                                      || is_negative r.limits.queue_length)
                                    (λ _ e. absurd (err_ok e))
                                    λ limits e. subst IsValid (ok-injective e) (record {
                                      relay_id = id;
                                      http_listen = ground arith;
                                      wss_listen = ground arith;
                                      tls_cert = ground arith;
                                      tls_key = ground arith;
                                      agent_ca = ca;
                                      internal_token = λ on. ground arith;
                                      turnstile = ground arith;
                                      max_concurrency = ground arith;
                                      queue_length = ground arith;
                                      session_ttl_min = positive_or_30 r.admin.session_ttl_min;
                                      retention_days = positive_or_30 r.retention.retention_days;
                                      log_level = named_level r.log_level;
                                    })
    where
      Valid : Result ConfigError Relay → Type 0
      Valid q = q ≡ ok r' → IsValid r'

  same_set : (a b : Bool) → a ≡ b → differ splits trim (not a) (not b) ≡ false
  same_set true b h = ground arith
  same_set false b h = ground arith

  IsValid-fill_in : (r : Relay) → IsValid r → fill_in r ≡ r
  unfolding fill_in
  IsValid-fill_in r v = rw (fill_in, v.session_ttl_min, v.retention_days, v.log_level)

  token_missing :
      (r : Relay)
      → IsValid r
      → (r.internal_auth.enabled && str_eq (trim r.internal_auth.token) "") ≡ false
  token_missing r v = ground (arith, v.internal_token)

  -- Settings that satisfy every requirement are accepted unchanged.
  IsValid-validate : (r : Relay) → IsValid r → validate splits trim r ≡ ok r
  unfolding validate
  IsValid-validate r v =
      rw
        (
          validate,
          v.relay_id,
          v.http_listen,
          v.wss_listen,
          v.tls_cert,
          v.tls_key,
          v.agent_ca,
          token_missing r v,
          same_set _ _ v.turnstile,
          v.max_concurrency,
          v.queue_length,
        )
        (ap ok (IsValid-fill_in r v))
