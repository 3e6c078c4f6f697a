-- ===== src/Admin.antt =====
-- The admin service of internal/relay/admin.go: sessions and logins, and the /api/* entry with the
-- handlers that change state. Times are milliseconds. The views are not modelled: they only print.
pub mod Login
pub mod Api
pub mod Origin
use text.Mathlib.Text.{◌==◌ as str_eq}
use Prim.Native.String.{◌++◌}
use modelrelay.Base.{
  ℕ, Bool, true, false, not, ◌&&◌, ◌||◌, String, List, Option, none, some, ltb, lookup, delete,
  string_eq, if◌then◌else◌,
}
use modelrelay.Store.Certs.{Store}
use modelrelay.Relay.Connection.{RelayState}

pub record Session : Type 0 where
  pub username : String
  pub role : String
  pub expiry : ℕ

pub record LoginFail : Type 0 where
  pub count : ℕ
  pub until : ℕ

-- AdminServer, with the parts of the Server that it changes.
pub record AdminState : Type 0 where
  pub server : RelayState
  pub store : Option Store
  pub sessions : List (String × Session)
  pub login_fails : List (String × LoginFail)
  pub keep_prompt : Bool
  pub retention_days : ℕ

-- What the service reads of an HTTP request; a missing header is the empty text.
pub record Request : Type 0 where
  pub method : String
  pub path : String
  pub host : String
  pub origin : String
  pub cookie : Option String
  pub body : List ℕ

-- rejectCrossOrigin: whether it answers 403.
unfoldable pub reject_cross_origin : Request → Bool
reject_cross_origin r =
    if str_eq r.origin ""
    then true
    else not (str_eq r.origin ("http://" ++ r.host)) && not (str_eq r.origin ("https://" ++ r.host))

-- sessionFromReq: an expired session is dropped when it is seen.
unfoldable pub session_from_req : ℕ → Request → AdminState → AdminState × Option Session
session_from_req now r a = elim r.cookie [
  | none ↦ (a, none)
  | some token ↦ elim (lookup token a.sessions) [
    | none ↦ (a, none)
    | some s ↦
        if ltb s.expiry now
        then (record a { sessions = delete token a.sessions }, none)
        else (a, some s)
  ]
]

-- The methods that the code takes for safe.
abbrev pub is_safe : String → Bool
is_safe method = str_eq method "GET" || str_eq method "HEAD" || str_eq method "OPTIONS"
