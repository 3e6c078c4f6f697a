-- ===== src/Config/Agent/Validity.antt =====
-- What validated settings of the agent satisfy (internal/config/agent.go).
use text.Mathlib.Text.{◌==◌ as str_eq}
use modelrelay.Base.{
  ◌≡◌, refl, subst, Bool, true, false, not, ◌||◌, String, List, [], ◌∷◌, Option, none, some, arith,
  All, ok, >>=-eq-ok, if-cases, ok-injective,
}
use modelrelay.Config.Relay.{ℤ, pos, is_positive, is_negative}
use modelrelay.Config.Agent.{
  RelayAddr, Agent, AgentError, Url, reject_if, or_default, fill_in, is_empty, check_url,
  check_relays, is_http, validate, node_id_missing, no_relay, insecure, base_url_missing,
  base_url_scheme, relay_scheme,
}

reject_if-false : (b : Bool) (e : AgentError) {u : Unit {0}} → reject_if b e ≡ ok u → b ≡ false
reject_if-false true e h = cc
reject_if-false false e h = refl

or_default-is_positive : (n d : ℤ) → is_positive d ≡ true → is_positive (or_default n d) ≡ true
or_default-is_positive n d h =
    if-cases (λ m. is_positive m ≡ true) (is_positive n) (λ k. k) (λ _. h)

module _ (parse : String → Option Url) (splits : String → Bool) where
  -- A relay's address parses, is wss:// and names a port.
  abbrev pub IsRelayUrl : RelayAddr → Type 0
  IsRelayUrl r =
      (u : Url) × (parse r.url ≡ some u)
      × (str_eq u.scheme "wss" ≡ true)
      × ((splits u.host || u.has_port) ≡ true)

  pub record IsValid (a : Agent) : Type 0 where
    pub node_id : str_eq a.node_id "" ≡ false
    pub relays : is_empty a.relays ≡ false
    pub urls : All IsRelayUrl a.relays
    pub tls_files : (str_eq a.tls.cert "" || str_eq a.tls.key "") ≡ false
    pub verified : a.tls.insecure_skip_verify ≡ false
    pub tls_ca : str_eq a.tls.ca "" ≡ false
    pub base_url : is_http (parse a.local.base_url) ≡ true
    pub max_concurrency : is_positive a.local.max_concurrency ≡ true
    pub max_body_bytes : is_positive a.max_body_bytes ≡ true
    pub heartbeat_seconds : is_positive a.heartbeat_seconds ≡ true
    pub prefer_primary : is_negative a.prefer_primary_interval_sec ≡ false
    pub log_level : str_eq a.log_level "" ≡ false

  check_url-ok :
      (url : String) (o : Option Url) {u : Unit {0}}
      → check_url parse splits url o ≡ ok u
      → (v : Url) × (o ≡ some v)
        × (str_eq v.scheme "wss" ≡ true)
        × ((splits v.host || v.has_port) ≡ true)
  check_url-ok url none h = cc
  check_url-ok url (some v) h =
      let (_, a, e) = >>=-eq-ok (reject_if (not (str_eq v.scheme "wss")) (relay_scheme url)) _ h in
      let scheme = reject_if-false _ _ a in
      let port = reject_if-false _ _ e in (v, refl, ground arith, ground arith)

  check_relays-ok :
      (rs : List RelayAddr) {u : Unit {0}} → check_relays parse splits rs ≡ ok u → All IsRelayUrl rs
  unfolding check_relays
  check_relays-ok [] h = tt
  check_relays-ok (r ∷ rs) h =
      let (_, a, e) = >>=-eq-ok (check_url parse splits r.url (parse r.url)) _ h in
      (check_url-ok r.url (parse r.url) a, check_relays-ok rs e)

  -- Settings that Validate accepts satisfy every requirement as it leaves them.
  pub validate-eq-ok : (a a' : Agent) → validate parse splits a ≡ ok a' → IsValid a'
  unfolding validate fill_in
  validate-eq-ok a a' h =
      let (_, id, h₁) = >>=-eq-ok (reject_if (str_eq a.node_id "") node_id_missing) _ h in
      let (_, some_relay, h₂) = >>=-eq-ok (reject_if (is_empty a.relays) no_relay) _ h₁ in
      let (_, urls, h₃) = >>=-eq-ok (check_relays parse splits a.relays) _ h₂ in
      let (_, files, h₄) =
        >>=-eq-ok (reject_if (str_eq a.tls.cert "" || str_eq a.tls.key "") AgentError.tls_files) _
          h₃ in
      let (_, secure, h₅) = >>=-eq-ok (reject_if a.tls.insecure_skip_verify insecure) _ h₄ in
      let (_, ca, h₆) = >>=-eq-ok (reject_if (str_eq a.tls.ca "") AgentError.tls_ca) _ h₅ in
      let (_, base, h₇) =
        >>=-eq-ok (reject_if (str_eq a.local.base_url "") base_url_missing) _ h₆ in
      let (_, http, h₈) =
        >>=-eq-ok (reject_if (not (is_http (parse a.local.base_url))) base_url_scheme) _ h₇ in
      let scheme = reject_if-false _ _ http in
      subst IsValid (ok-injective h₈) (record {
        node_id = reject_if-false _ _ id;
        relays = reject_if-false _ _ some_relay;
        urls = check_relays-ok a.relays urls;
        tls_files = reject_if-false _ _ files;
        verified = reject_if-false _ _ secure;
        tls_ca = reject_if-false _ _ ca;
        base_url = ground arith;
        max_concurrency = or_default-is_positive a.local.max_concurrency (pos 8) refl;
        max_body_bytes = or_default-is_positive a.max_body_bytes (pos 209715200) refl;
        heartbeat_seconds = or_default-is_positive a.heartbeat_seconds (pos 20) refl;
        prefer_primary =
            if-cases (λ n. is_negative n ≡ false) (is_negative a.prefer_primary_interval_sec)
              (λ _. refl) (λ k. k);
        log_level =
            if-cases (λ l. str_eq l "" ≡ false) (str_eq a.log_level "") (λ _. refl) (λ k. k);
      })
