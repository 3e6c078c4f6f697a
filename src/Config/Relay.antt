-- ===== src/Config/Relay.antt =====
-- The settings of the relay, internal/config/relay.go. The fields that may be negative are integers.
pub mod Validity
use text.Mathlib.Text.{◌==◌ as str_eq}
use modelrelay.Base.{
  ℕ, Bool, true, false, not, ◌&&◌, ◌||◌, String, List, [], ◌∷◌, ltb, if◌then◌else◌, Result, ok, err,
  ◌==◌,
}

-- An int of the configuration: a natural number, or minus one more than it.
pub data ℤ : Type 0 where
  pos negsuc : ℕ → ℤ

abbrev pub is_positive : ℤ → Bool
is_positive (pos n) = ltb 0 n
is_positive (negsuc n) = false

abbrev pub is_negative : ℤ → Bool
is_negative (pos n) = false
is_negative (negsuc n) = true

pub record Limits : Type 0 where
  pub max_body_bytes : ℤ
  pub max_concurrency : ℤ
  pub queue_length : ℤ
  pub queue_timeout_sec : ℤ
  pub ttft_timeout_sec : ℤ
  pub idle_timeout_sec : ℤ
  pub request_timeout_sec : ℤ
  pub heartbeat_timeout_sec : ℤ

pub record InternalAuth : Type 0 where
  pub token : String
  pub enabled : Bool

pub record Turnstile : Type 0 where
  pub site_key : String
  pub secret_key : String

-- `session_timeout` in minutes. The accounts are not read by Validate and left out.
pub record Admin : Type 0 where
  pub listen : String
  pub session_timeout : ℕ
  pub session_ttl_min : ℤ
  pub trusted_proxies : List String
  pub secure_cookie : Bool
  pub turnstile : Turnstile

pub record Retention : Type 0 where
  pub keep_prompt_response : Bool
  pub retention_days : ℤ

pub record Relay : Type 0 where
  pub relay_id : String
  pub relay_name : String
  pub http_listen : String
  pub wss_listen : String
  pub tls_cert : String
  pub tls_key : String
  pub agent_ca : String
  pub internal_auth : InternalAuth
  pub limits : Limits
  pub admin : Admin
  pub db_path : String
  pub retention : Retention
  pub log_level : String

abbrev pub default_relay : Relay
default_relay = record {
  relay_id = "relay-default";
  relay_name = "";
  http_listen = "127.0.0.1:9100";
  wss_listen = "0.0.0.0:9443";
  tls_cert = "";
  tls_key = "";
  agent_ca = "";
  internal_auth = record { token = ""; enabled = true };
  limits = record {
    max_body_bytes = pos 209715200;
    max_concurrency = pos 64;
    queue_length = pos 256;
    queue_timeout_sec = pos 30;
    ttft_timeout_sec = pos 120;
    idle_timeout_sec = pos 300;
    request_timeout_sec = pos 1800;
    heartbeat_timeout_sec = pos 60;
  };
  admin = record {
    listen = "127.0.0.1:9200";
    session_timeout = 30;
    session_ttl_min = pos 30;
    trusted_proxies = "127.0.0.1" ∷ "::1" ∷ [];
    secure_cookie = false;
    turnstile = record { site_key = ""; secret_key = "" };
  };
  db_path = "modelrelay.db";
  retention = record { keep_prompt_response = false; retention_days = pos 30 };
  log_level = "info";
}

pub data ConfigError : Type 0 where
  relay_id http_listen wss_listen tls_files agent_ca internal_token turnstile_pair limits_invalid :
      ConfigError

-- The defaults at the end of Validate.
unfoldable pub fill_in : Relay → Relay
fill_in r = record r {
  admin = record r.admin {
    session_ttl_min =
        if is_positive r.admin.session_ttl_min then r.admin.session_ttl_min else pos 30;
  };
  retention = record r.retention {
    retention_days =
        if is_positive r.retention.retention_days then r.retention.retention_days else pos 30;
  };
  log_level = if str_eq r.log_level "" then "info" else r.log_level;
}

-- `splits`: whether net.SplitHostPort accepts the address; `trim`: strings.TrimSpace.
module _ (splits : String → Bool) (trim : String → String) where
  abbrev pub is_set : String → Bool
  is_set key = not (str_eq (trim key) "")

  abbrev pub differ : Bool → Bool → Bool
  differ a b = if a then not b else b

  unfoldable pub validate : Relay → Result ConfigError Relay
  unfolding fill_in
  validate r =
      if str_eq r.relay_id ""
      then err relay_id
      else if not (splits r.http_listen)
      then err http_listen
      else if not (splits r.wss_listen)
      then err wss_listen
      else if str_eq r.tls_cert "" || str_eq r.tls_key ""
      then err tls_files
      else if str_eq r.agent_ca ""
      then err agent_ca
      else if r.internal_auth.enabled && str_eq (trim r.internal_auth.token) ""
      then err internal_token
      else if differ (is_set r.admin.turnstile.site_key) (is_set r.admin.turnstile.secret_key)
      then err turnstile_pair
      else if not (is_positive r.limits.max_concurrency) || is_negative r.limits.queue_length
      then err limits_invalid
      else ok (fill_in r)
