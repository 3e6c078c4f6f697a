-- ===== src/Relay/Handshake.antt =====
-- handleConnect of internal/relay/wss.go: what a connection has to show before it is registered. The
-- WebSocket upgrade, encoding/json, strings.TrimSpace, url.PathEscape and the fingerprint are outside:
-- their results are inputs or parameters.
pub mod Admission
use text.Mathlib.Text.{◌==◌ as str_eq}
use Prim.Native.String.{◌++◌ as str_append}
use modelrelay.Base.{
  ℕ, ◌+◌, Bool, true, false, not, ◌&&◌, String, List, [], ◌∷◌, Option, none, some, ltb, ◌==◌, any,
  insert, string_eq, length, if◌then◌else◌, Result, ok, err, ◌>>=◌, ◌>>◌,
}
use modelrelay.Protocol.Codes.{
  invalid_request, unsupported_protocol, unauthorized, identity_mismatch, duplicate_node,
  internal_error,
}
use modelrelay.Protocol.Frame.{protocol_version}
use modelrelay.Relay.Node.{Node, ModelCap, online}
use modelrelay.Relay.Heartbeat.{heartbeat_seconds}
use modelrelay.Relay.Registry.{try_register}
use modelrelay.Relay.Connection.{RelayState, allocate, accept}
use modelrelay.Store.Certs.{Store, CertMeta, CertStatus, active, is_cert_revoked, ensure_cert_meta}

abbrev pub agent_origin : String
agent_origin = "https://modelrelay.agent"

abbrev pub max_control_message : ℕ
max_control_message = 1048576

-- protocol.ModelInfo.
pub record ModelInfo : Type 0 where
  pub id : String
  pub capabilities : List String
  pub capabilities_complete : Bool

-- A negative limit counts as 0.
pub record Hello : Type 0 where
  pub protocol : ℕ
  pub node_id : String
  pub agent_version : String
  pub os : String
  pub arch : String
  pub models : List ModelInfo
  pub max_concurrency : ℕ

pub record Certificate : Type 0 where
  pub common_name : String
  pub uris : List String
  pub serial : String
  pub subject : String
  pub issuer : String
  pub not_before : ℕ
  pub not_after : ℕ
  pub fingerprint : String

-- The first message: `textual` has its size and what ParseControl and json.Unmarshal make of it.
pub data Parsed : Type 0 where
  not_hello malformed : Parsed
  hello : Hello → Parsed

pub data FirstMessage : Type 0 where
  unread binary : FirstMessage
  textual : ℕ → Parsed → FirstMessage

pub record Connect : Type 0 where
  pub origin : String
  pub upgraded : Bool
  pub first_message : FirstMessage
  pub peer : Option Certificate

-- How the connection is answered before it is closed, or accepted.
pub data Reply : Type 0 where
  forbidden nothing : Reply
  error_message : String → String → Reply
  rejected : String → Reply
  acknowledged : (registered_models max_concurrency heartbeat_seconds : ℕ) → Reply

abbrev pub require : Bool → Reply → Result Reply (Unit {0})
require true e = ok tt
require false e = err e

unfoldable pub parsed_hello : Parsed → Result Reply Hello
parsed_hello not_hello = err (error_message invalid_request "expected hello")
parsed_hello malformed = err (error_message invalid_request "malformed hello")
parsed_hello (hello h) = ok h

unfoldable pub read_hello : FirstMessage → Result Reply Hello
unfolding parsed_hello
read_hello unread = err nothing
read_hello binary = err nothing
read_hello (textual size m) = if ltb max_control_message size then err nothing else parsed_hello m

-- A peer without a common name is none.
unfoldable pub peer_of : Option Certificate → Result Reply Certificate
peer_of none = err (rejected unauthorized)
peer_of (some cert) = if str_eq cert.common_name "" then err (rejected unauthorized) else ok cert

module _ (trim_space path_escape : String → String) where
  unfoldable pub agent_identity_uri : String → String
  agent_identity_uri node_id = str_append "spiffe://modelrelay/agent/" (path_escape node_id)

  unfoldable pub cert_identity_matches : Certificate → String → Bool
  unfolding agent_identity_uri
  cert_identity_matches cert node_id =
      if ltb 0 (length cert.uris)
      then (if any (λ uri. str_eq uri (agent_identity_uri node_id)) cert.uris
          then str_eq cert.common_name node_id
          else false)
      else str_eq cert.common_name node_id

  -- Steps 1 to 3, up to the certificate's identity.
  unfoldable pub check_peer : Connect → Result Reply (Hello × Certificate)
  unfolding read_hello peer_of cert_identity_matches
  check_peer c = do
    require (str_eq c.origin agent_origin) forbidden
    require c.upgraded nothing
    h ← read_hello c.first_message
    require (h.protocol == protocol_version) (rejected unsupported_protocol)
    require (not (str_eq (trim_space h.node_id) "")) (rejected invalid_request)
    cert ← peer_of c.peer
    require (cert_identity_matches cert h.node_id) (rejected identity_mismatch)
    ok (h, cert)

unfoldable pub cert_meta_of : Hello → Certificate → CertMeta
cert_meta_of h cert = record {
  node_id = h.node_id;
  serial = cert.serial;
  subject = cert.subject;
  issuer = cert.issuer;
  not_before = cert.not_before;
  not_after = cert.not_after;
  status = active;
  fingerprint = cert.fingerprint;
  revoked_at = none;
  revoke_reason = "";
  created_at = 0;
}

-- The store, if there is one: `readable` and `writable` tell whether its statements succeed.
unfoldable pub check_store :
    ℕ → Bool → Bool → Hello → Certificate → Option Store → Result Reply (Option Store)
unfolding cert_meta_of
check_store now readable writable h cert none = ok none
check_store now readable writable h cert (some st) = do
  require readable (rejected unauthorized)
  require (not (is_cert_revoked st cert.serial)) (rejected unauthorized)
  require writable (rejected internal_error)
  ok (some (ensure_cert_meta now (cert_meta_of h cert) st))

unfoldable pub models_of : ℕ → List ModelInfo → List (String × ModelCap) → List (String × ModelCap)
models_of now [] out = out
models_of now (m ∷ ms) out = models_of now ms (
    insert m.id
      (record {
        id = m.id;
        capabilities = m.capabilities;
        capabilities_complete = m.capabilities_complete;
        probe_time = now;
      })
      out)

-- Step 4, before the registration.
unfoldable pub node_of : ℕ → Hello → Certificate → Node
unfolding models_of
node_of now h cert = record {
  id = h.node_id;
  agent_version = h.agent_version;
  os = h.os;
  arch = h.arch;
  state = online;
  max_concurrency = if h.max_concurrency == 0 then 8 else h.max_concurrency;
  models = models_of now h.models [];
  active = 0;
  heartbeat = now;
  heartbeat_seq = 0;
  connected_at = now;
  cert_hash = cert.fingerprint;
  cert_serial = cert.serial;
  last_error = "";
}

pub record Connected : Type 0 where
  pub relay : RelayState
  pub store : Option Store
  pub reply : Reply
  pub reading : Bool

-- Steps 4 to 7: `acked` tells whether the hello_ack was written.
unfoldable pub register_node : ℕ → ℕ → Bool → Node → RelayState → Option Store → Connected
unfolding heartbeat_seconds
register_node timeout p acked n s st =
    let (s', reading) = accept p n acked s in
    let registered = (try_register p (allocate p n s).registry).1 in
    record {
      relay = s';
      store = st;
      reply =
          if reading
          then acknowledged (length n.models) n.max_concurrency (heartbeat_seconds timeout)
          else if registered
          then nothing
          else rejected duplicate_node;
      reading = reading;
    }

-- The environment of one connection: the clock, the address of its node, and what succeeds.
pub record Setting : Type 0 where
  pub timeout : ℕ
  pub now : ℕ
  pub address : ℕ
  pub readable : Bool
  pub writable : Bool
  pub acked : Bool

module _ (trim_space path_escape : String → String) where
  abbrev pub settle :
      Setting → RelayState → Option Store → Result Reply (Node × Option Store) → Connected
  settle e s st (err reply) = record { relay = s; store = st; reply = reply; reading = false }
  settle e s st (ok (n, st')) = register_node e.timeout e.address e.acked n s st'

  unfoldable pub checked : Setting → Connect → Option Store → Result Reply (Node × Option Store)
  unfolding check_peer check_store node_of
  checked e c st = do
    (h, cert) ← check_peer trim_space path_escape c
    st' ← check_store e.now e.readable e.writable h cert st
    ok (node_of e.now h cert, st')

  -- handleConnect up to its read loop.
  unfoldable pub handle_connect : Setting → Connect → RelayState → Option Store → Connected
  unfolding checked register_node
  handle_connect e c s st = settle e s st (checked e c st)
