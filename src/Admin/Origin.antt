-- ===== src/Admin/Origin.antt =====
-- Where a request of the admin service comes from: clientIP, fromTrustedProxy and useSecureCookie of
-- internal/relay/admin.go. net.ParseIP, IP.Equal, IP.String, SplitHostPort, TrimSpace and EqualFold
-- are parameters.
pub mod Forged
use Prim.Native.String.{find, slice}
use text.Mathlib.Text.{◌==◌ as str_eq}
use modelrelay.Base.{
  ℕ, Bool, true, false, ◌&&◌, ◌||◌, String, List, Option, none, some, any, if◌then◌else◌,
}

-- The address of the peer, and the headers that a proxy may set.
pub record Incoming : Type 0 where
  pub remote_addr : String
  pub cf_connecting_ip : String
  pub x_forwarded_for : String
  pub x_forwarded_proto : String
  pub has_tls : Bool

-- The first element of strings.Split at commas.
abbrev pub before_comma : String → String
before_comma s = slice s 0 (find s ",")

abbrev pub or_else : Option String → String → String
or_else none d = d
or_else (some s) d = s

module _ (split_host : String → Option String) where
  -- The function clientIP.
  unfoldable pub direct_ip : Incoming → String
  direct_ip r = or_else (split_host r.remote_addr) r.remote_addr

module _ {Ip : Type 0} (split_host : String → Option String) (parse_ip : String → Option Ip)
    (equal : Ip → Ip → Bool) (trusted : List Ip) where
  abbrev pub is_trusted : Option Ip → Bool
  is_trusted none = false
  is_trusted (some ip) = any (λ p. equal p ip) trusted

  unfoldable pub from_trusted_proxy : Incoming → Bool
  unfolding direct_ip
  from_trusted_proxy r = is_trusted (parse_ip (direct_ip split_host r))

module _ {Ip : Type 0} (split_host : String → Option String) (parse_ip : String → Option Ip)
    (equal : Ip → Ip → Bool) (trusted : List Ip) (ip_text : Ip → String)
    (trim : String → String) where
  abbrev pub parsed_or : String → Option Ip → String
  parsed_or d none = d
  parsed_or d (some ip) = ip_text ip

  abbrev pub forwarded_for : Incoming → String → String
  forwarded_for r direct =
      if str_eq r.x_forwarded_for ""
      then direct
      else parsed_or direct (parse_ip (trim (before_comma r.x_forwarded_for)))

  abbrev pub connecting_ip : Incoming → String → String
  connecting_ip r direct =
      if str_eq (trim r.cf_connecting_ip) ""
      then forwarded_for r direct
      else parsed_or (forwarded_for r direct) (parse_ip (trim r.cf_connecting_ip))

  -- The method clientIP, which handleLogin counts failures by.
  unfoldable pub client_ip : Incoming → String
  unfolding direct_ip from_trusted_proxy
  client_ip r =
      if from_trusted_proxy split_host parse_ip equal trusted r
      then connecting_ip r (direct_ip split_host r)
      else direct_ip split_host r

module _ {Ip : Type 0} (split_host : String → Option String) (parse_ip : String → Option Ip)
    (equal : Ip → Ip → Bool) (trusted : List Ip) (equal_fold : String → String → Bool) where
  unfoldable pub use_secure_cookie : Bool → Incoming → Bool
  unfolding from_trusted_proxy
  use_secure_cookie secure_cookie r =
      if secure_cookie
      then true
      else if from_trusted_proxy split_host parse_ip equal trusted r
          && equal_fold r.x_forwarded_proto "https"
      then true
      else r.has_tls
