-- ===== src/Relay/Upstream.antt =====
-- The HTTP service of internal/relay/http.go: what it answers itself, and what it passes to handleProxy.
pub mod Access
use text.Mathlib.Text.{◌==◌ as str_eq, starts_with}
use Prim.Native.String.{◌++◌ as str_append}
use modelrelay.Base.{
  ℕ, Bool, true, false, not, ◌&&◌, String, List, [], ◌∷◌, Option, none, some, ltb, length,
  ends_with, trim_prefix, trim_suffix, if◌then◌else◌, Result, ok, err, ◌>>=◌, ◌>>◌,
}
use modelrelay.Protocol.Codes.{
  unauthorized, invalid_path, body_too_large, invalid_request, model_not_found,
}
use modelrelay.Protocol.Path.{is_allowed_path}
use modelrelay.Relay.Registry.{Registry}
use modelrelay.Relay.Directory.{ModelDirectoryEntry, model_directory}

pub record UpstreamConfig : Type 0 where
  pub internal_auth_enabled : Bool
  pub internal_auth_token : String
  pub max_body_bytes : ℕ

-- `read_error`: the body cannot be read to its end for another reason than its size.
pub record HttpRequest : Type 0 where
  pub authorization : String
  pub method : String
  pub path : String
  pub query : String
  pub body : List ℕ
  pub read_error : Option String

-- An error, an answer of the relay, or the arguments of handleProxy.
pub data Handled : Type 0 where
  relay_error : String → String → Handled
  models : List ModelDirectoryEntry → Handled
  model : ModelDirectoryEntry → Handled
  proxied : (method path query : String) → List ℕ → Handled

abbrev pub require : Bool → String → String → Result Handled (Unit {0})
require true code message = ok tt
require false code message = err (relay_error code message)

unfoldable pub check_auth : UpstreamConfig → HttpRequest → Result Handled (Unit {0})
check_auth cfg r =
    if cfg.internal_auth_enabled
    then (do
      require (not (str_eq cfg.internal_auth_token "")) unauthorized
          "internal auth is not configured"
      require (str_eq (trim_prefix r.authorization "Bearer ") cfg.internal_auth_token) unauthorized
          "invalid internal auth token")
    else ok tt

unfoldable pub normalized : String → String
normalized path = if ends_with path "/" && not (str_eq path "/") then trim_suffix path "/" else path

unfoldable pub find_model : String → List ModelDirectoryEntry → Handled
find_model id [] = relay_error model_not_found (str_append "model not found: " id)
find_model id (e ∷ es) = if str_eq e.id id then model e else find_model id es

-- http.MaxBytesReader and io.ReadAll.
unfoldable pub read_body : UpstreamConfig → HttpRequest → Result Handled (List ℕ)
read_body cfg r =
    if ltb cfg.max_body_bytes (length r.body)
    then err (relay_error body_too_large "request body too large")
    else elim r.read_error [
      | none ↦ ok r.body
      | some e ↦ err (relay_error invalid_request (str_append "failed to read body: " e))
    ]

unfoldable pub pass_on : UpstreamConfig → HttpRequest → String → Result Handled (List ℕ)
unfolding read_body
pass_on cfg r path = do
  require (is_allowed_path r.method path) invalid_path
      (str_append "path " (str_append path " not allowed"))
  read_body cfg r

-- The answer that stands for a chain which ends early, or the call of handleProxy.
abbrev pub handed_on : HttpRequest → String → Result Handled (List ℕ) → Handled
handed_on r path (err answer) = answer
handed_on r path (ok body) = proxied r.method path r.query body

unfoldable pub route : UpstreamConfig → Registry → HttpRequest → String → Handled
unfolding pass_on find_model
route cfg reg r path =
    if str_eq path "/v1/models"
    then models (model_directory reg)
    else if starts_with path "/v1/models/"
    then find_model (trim_prefix path "/v1/models/") (model_directory reg)
    else handed_on r path (pass_on cfg r path)

abbrev pub admitted : UpstreamConfig → Registry → HttpRequest → Result Handled (Unit {0}) → Handled
admitted cfg reg r (err answer) = answer
admitted cfg reg r (ok _) = route cfg reg r (normalized r.path)

unfoldable pub handle : UpstreamConfig → Registry → HttpRequest → Handled
unfolding check_auth route normalized
handle cfg reg r = admitted cfg reg r (check_auth cfg r)
