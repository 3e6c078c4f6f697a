-- ===== src/Certmgr/Client.antt =====
-- The client of the admin service, internal/certmgr/client.go. url.Parse, TrimSpace and encoding/json
-- are parameters; `server` answers a request, `none` where the exchange fails. The cookie jar holds
-- the session's cookie.
pub mod Revoking
pub mod LoggingIn
use text.Mathlib.Text.{◌==◌ as str_eq}
use Prim.Native.String.{◌++◌}
use modelrelay.Base.{
  ℕ, Bool, true, false, not, ◌&&◌, ◌||◌, String, List, [], ◌∷◌, Option, none, some, leb,
  if◌then◌else◌, Result, ok, err, ◌>>=◌, ◌>>◌,
}
use modelrelay.Admin.{Request}

pub record RemoteCert : Type 0 where
  pub node_id : String
  pub serial : String
  pub subject : String
  pub issuer : String
  pub not_before : ℕ
  pub not_after : ℕ
  pub status : String
  pub fingerprint : String
  pub revoke_reason : String

-- `cookie` is what the jar sends.
pub record AdminClient : Type 0 where
  pub base_url : String
  pub user : String
  pub role : String
  pub cookie : Option String

pub record Url : Type 0 where
  pub scheme : String
  pub host : String
  pub path : String

-- An answer that was read to its end; `set_cookie` is the session's cookie in it.
pub record HttpReply : Type 0 where
  pub status : ℕ
  pub body : List ℕ
  pub set_cookie : Option String

pub record LoginReply : Type 0 where
  pub error : String
  pub username : String
  pub role : String

pub record RevokeReply : Type 0 where
  pub accepted : String
  pub error : String

pub record CertsReply : Type 0 where
  pub certs : List RemoteCert
  pub error : String

pub data ClientError : Type 0 where
  url_required url_invalid credentials_required not_authenticated serial_required : ClientError
  no_exchange bad_reply failed : ClientError
  answered : String → ClientError
  http_status : ℕ → ClientError

-- encoding/json: the bodies that are sent, and the replies; the text of an error is empty where the
-- body does not decode.
pub record Json : Type 0 where
  pub credentials : String → String → List ℕ
  pub serial : String → List ℕ
  pub error_text : List ℕ → String
  pub login_reply : List ℕ → Option LoginReply
  pub certs_reply : List ℕ → Option CertsReply
  pub revoke_reply : List ℕ → Option RevokeReply

abbrev pub require : Bool → ClientError → Result ClientError (Unit {0})
require true e = ok tt
require false e = err e

abbrev pub decoded : {A : Type 0} → Option A → Result ClientError A
decoded none = err bad_reply
decoded (some x) = ok x

-- LoggedIn of a client that is not nil.
abbrev pub logged_in : AdminClient → Bool
logged_in c = not (str_eq c.user "")

abbrev pub fresh_client : String → AdminClient
fresh_client base = record { base_url = base; user = ""; role = ""; cookie = none }

abbrev pub origin_of : Option Url → String
origin_of none = ""
origin_of (some u) = if str_eq u.host "" then "" else (u.scheme ++ "://") ++ u.host

abbrev pub sends_origin : String → Bool
sends_origin method = not (str_eq method "GET") && not (str_eq method "HEAD")

module _ (parse : String → Option Url) where
  abbrev pub request_to : AdminClient → String → List ℕ → Url → Request
  request_to c method body u = record {
    method = method;
    path = u.path;
    host = u.host;
    origin = if sends_origin method then origin_of (parse c.base_url) else "";
    cookie = c.cookie;
    body = body;
  }

  unfoldable pub new_request : AdminClient → String → String → List ℕ → Option Request
  new_request c method path body = elim (parse (c.base_url ++ path)) [
    | none ↦ none
    | some u ↦ some (request_to c method body u)
  ]

module _ (parse : String → Option Url) (trim_space trim_slashes : String → String) where
  unfoldable pub new_admin_client : String → Result ClientError AdminClient
  new_admin_client base_url =
      let base = trim_slashes (trim_space base_url) in
      if str_eq base ""
      then err url_required
      else elim (parse base) [ none ↦ err url_invalid | some u ↦ ok (fresh_client base) ]

module _ (parse : String → Option Url) (trim_space : String → String) (json : Json) where
  abbrev pub reply_error : List ℕ → ℕ → ClientError
  reply_error body status =
      if str_eq (json.error_text body) ""
      then http_status status
      else answered (json.error_text body)

  abbrev pub read_reply : HttpReply → Result ClientError HttpReply
  read_reply r = if leb 400 r.status then err (reply_error r.body r.status) else ok r

  module _ (server : Request → Option HttpReply) where
    -- The method `do`.
    unfoldable pub exchange : AdminClient → String → String → List ℕ → Result ClientError HttpReply
    unfolding new_request
    exchange c method path body = elim (new_request parse c method path body) [
      | none ↦ err no_exchange
      | some r ↦ elim (server r) [ none ↦ err no_exchange | some reply ↦ read_reply reply ]
    ]

    abbrev pub kept_cookie : Option String → Option String → Option String
    kept_cookie old none = old
    kept_cookie old (some token) = some token

    abbrev pub login_error : LoginReply → ClientError
    login_error out = if str_eq out.error "" then failed else answered out.error

    unfoldable pub login : String → String → AdminClient → Result ClientError AdminClient
    unfolding exchange
    login username password c = do
      let name = trim_space username
      require (not (str_eq name "" || str_eq password "")) credentials_required
      reply ← exchange c "POST" "/api/login" (json.credentials name password)
      out ← decoded (json.login_reply reply.body)
      require (not (str_eq out.username "")) (login_error out)
      ok (record c {
        user = out.username;
        role = out.role;
        cookie = kept_cookie c.cookie reply.set_cookie;
      })

    unfoldable pub list_certs : AdminClient → Result ClientError (List RemoteCert)
    unfolding exchange
    list_certs c = do
      require (logged_in c) not_authenticated
      reply ← exchange c "GET" "/api/certs" []
      out ← decoded (json.certs_reply reply.body)
      require (str_eq out.error "") (answered out.error)
      ok out.certs

    unfoldable pub revoke : String → AdminClient → Result ClientError (Unit {0})
    unfolding exchange
    revoke serial c = do
      require (logged_in c) not_authenticated
      require (not (str_eq (trim_space serial) "")) serial_required
      reply ← exchange c "POST" "/api/certs/revoke" (json.serial (trim_space serial))
      out ← decoded (json.revoke_reply reply.body)
      require (str_eq out.error "") (answered out.error)
      require (not (str_eq out.accepted "")) failed

-- The answer of the server is ignored.
unfoldable pub logout : AdminClient → AdminClient
logout c = record c { user = ""; role = ""; cookie = none }
