-- ===== src/Config/Agent.antt =====
-- The settings of the agent, internal/config/agent.go. The fields that Validate tests for their sign
-- are integers; url.Parse and net.SplitHostPort are parameters.
pub mod Validity
use text.Mathlib.Text.{◌==◌ as str_eq}
use modelrelay.Base.{
  ℕ, Bool, true, false, not, ◌&&◌, ◌||◌, String, List, [], ◌∷◌, Option, none, some, if◌then◌else◌,
  Result, ok, err, ◌>>=◌, ◌>>◌,
}
use modelrelay.Config.Relay.{ℤ, pos, negsuc, is_positive, is_negative}

pub record RelayAddr : Type 0 where
  pub url : String
  pub priority : ℤ

pub record Tls : Type 0 where
  pub cert : String
  pub key : String
  pub ca : String
  pub insecure_skip_verify : Bool

pub record Local : Type 0 where
  pub base_url : String
  pub api_key : String
  pub tls_verify : Bool
  pub connect_timeout_sec : ℤ
  pub response_timeout_sec : ℤ
  pub max_concurrency : ℤ

pub record Probe : Type 0 where
  pub interval_sec : ℤ
  pub test_model : String
  pub enabled : List String

pub record Agent : Type 0 where
  pub node_id : String
  pub max_body_bytes : ℤ
  pub relays : List RelayAddr
  pub tls : Tls
  pub local : Local
  pub probe : Probe
  pub heartbeat_seconds : ℤ
  pub prefer_primary_interval_sec : ℤ
  pub log_level : String

abbrev pub default_agent : Agent
default_agent = record {
  node_id = "";
  max_body_bytes = pos 209715200;
  relays = [];
  tls = record { cert = ""; key = ""; ca = ""; insecure_skip_verify = false };
  local = record {
    base_url = "";
    api_key = "";
    tls_verify = true;
    connect_timeout_sec = pos 5;
    response_timeout_sec = pos 300;
    max_concurrency = pos 8;
  };
  probe = record {
    interval_sec = pos 600;
    test_model = "";
    enabled = "chat" ∷ "chat_stream" ∷ "embeddings" ∷ "responses" ∷ "tools" ∷ [];
  };
  heartbeat_seconds = pos 20;
  prefer_primary_interval_sec = pos 0;
  log_level = "info";
}

pub data AgentError : Type 0 where
  node_id_missing no_relay tls_files insecure tls_ca base_url_missing base_url_scheme : AgentError
  relay_url relay_scheme relay_port : String → AgentError

-- What url.Parse gives of an address; `has_port` is whether Port is not empty.
pub record Url : Type 0 where
  pub scheme : String
  pub host : String
  pub has_port : Bool

abbrev pub reject_if : Bool → AgentError → Result AgentError (Unit {0})
reject_if true e = err e
reject_if false e = ok tt

abbrev pub or_default : ℤ → ℤ → ℤ
or_default n d = if is_positive n then n else d

-- The defaults at the end of Validate.
unfoldable pub fill_in : Agent → Agent
fill_in a = record a {
  local = record a.local { max_concurrency = or_default a.local.max_concurrency (pos 8) };
  max_body_bytes = or_default a.max_body_bytes (pos 209715200);
  heartbeat_seconds = or_default a.heartbeat_seconds (pos 20);
  prefer_primary_interval_sec =
      if is_negative a.prefer_primary_interval_sec then pos 0 else a.prefer_primary_interval_sec;
  log_level = if str_eq a.log_level "" then "info" else a.log_level;
}

abbrev pub is_empty : List RelayAddr → Bool
is_empty [] = true
is_empty (r ∷ rs) = false

abbrev pub is_http : Option Url → Bool
is_http none = false
is_http (some u) = str_eq u.scheme "http" || str_eq u.scheme "https"

module _ (parse : String → Option Url) (splits : String → Bool) where
  abbrev pub check_url : String → Option Url → Result AgentError (Unit {0})
  check_url url none = err (relay_url url)
  check_url url (some u) = do
    reject_if (not (str_eq u.scheme "wss")) (relay_scheme url)
    reject_if (not (splits u.host) && not u.has_port) (relay_port url)

  unfoldable pub check_relays : List RelayAddr → Result AgentError (Unit {0})
  check_relays [] = ok tt
  check_relays (r ∷ rs) = do check_url r.url (parse r.url); check_relays rs

  unfoldable pub validate : Agent → Result AgentError Agent
  unfolding fill_in check_relays
  validate a = do
    reject_if (str_eq a.node_id "") node_id_missing
    reject_if (is_empty a.relays) no_relay
    check_relays a.relays
    reject_if (str_eq a.tls.cert "" || str_eq a.tls.key "") tls_files
    reject_if a.tls.insecure_skip_verify insecure
    reject_if (str_eq a.tls.ca "") tls_ca
    reject_if (str_eq a.local.base_url "") base_url_missing
    reject_if (not (is_http (parse a.local.base_url))) base_url_scheme
    ok (fill_in a)
