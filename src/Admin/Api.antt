-- ===== src/Admin/Api.antt =====
-- handleAPI of internal/relay/admin.go and the handlers that change state.
pub mod Authority
use text.Mathlib.Text.{◌==◌ as str_eq, starts_with}
use modelrelay.Base.{
  ℕ, Bool, true, false, not, ◌&&◌, ◌||◌, String, List, Option, none, some, ltb, leb, lookup, delete,
  string_eq, if◌then◌else◌, Result, ok, err, ends_with, trim_prefix, trim_suffix, ◌==◌,
}
use modelrelay.Store.Certs.{Store, CertMeta, add_audit, get_cert, revoke_cert}
use modelrelay.Relay.Node.{snapshot, set_max_concurrency}
use modelrelay.Relay.Registry.{at, get}
use modelrelay.Relay.Connection.{RelayState, drain_node, kick_node, send_to_node, ControlError}
use modelrelay.Admin.{AdminState, Session, Request, session_from_req, reject_cross_origin, is_safe}

-- The answer's status; 200 is what a handler answers without an error.
abbrev Answer : Type 0
Answer = AdminState × ℕ

-- encoding/json on the bodies of the handlers; `none` is an error. A number below 1 reads as 0.
pub record Decoders : Type 0 where
  pub concurrency : List ℕ → Option ℕ
  pub serial : List ℕ → Option String
  pub retention : List ℕ → Option (Bool × ℕ)

unfoldable pub with_audit : ℕ → Session → String → String → AdminState → AdminState
unfolding add_audit
with_audit now s action target a = elim a.store [
  | none ↦ a
  | some st ↦ record a { store = some (add_audit now s.username action target st) }
]

unfoldable pub finish_action :
    ℕ
    → Session
    → String
    → String
    → AdminState
    → RelayState × Result ControlError (Unit {0})
    → Answer
unfolding with_audit
finish_action now s id action a (server, ok _) =
    (with_audit now s action id (record a { server = server }), 200)
finish_action now s id action a (server, err e) = (record a { server = server }, 400)

-- `sent`: what the write to the node's connection returns. The grace of a drain is only sent.
unfoldable pub handle_node_action : ℕ → Bool → Session → String → String → AdminState → Answer
unfolding finish_action drain_node kick_node send_to_node
handle_node_action now sent s id action a = finish_action now s id action a (
    if str_eq action "drain"
    then drain_node id sent a.server
    else if str_eq action "kick"
    then kick_node id a.server
    else (a.server, send_to_node a.server id sent))

unfoldable pub handle_logout : Request → AdminState → Answer
handle_logout r a = elim r.cookie [
  | none ↦ (a, 200)
  | some token ↦ (record a { sessions = delete token a.sessions }, 200)
]

-- The connection of a node that stands on the revoked certificate is cut.
unfoldable pub cut_off : String → String → RelayState → RelayState
unfolding kick_node
cut_off node_id serial server = elim (get server.registry node_id) [
  | none ↦ server
  | some p ↦
      if str_eq (snapshot (server.registry.heap p)).cert_serial serial
      then (kick_node node_id server).0
      else server
]

abbrev pub is_view : String → Bool
is_view path = str_eq path "/me" || str_eq path "/overview" || str_eq path "/nodes"

abbrev pub is_later_view : String → Bool
is_later_view path = str_eq path "/requests" || str_eq path "/audit" || str_eq path "/settings"

abbrev pub node_path : String → String → Bool
node_path path suffix = starts_with path "/nodes/" && ends_with path suffix

abbrev pub node_id_of : String → String → String
node_id_of path suffix = trim_suffix (trim_prefix path "/nodes/") suffix

abbrev pub api_path : Request → String
api_path r = trim_suffix (trim_prefix r.path "/api") "/"

module _ (json : Decoders) where
  unfoldable pub handle_node_concurrency : ℕ → Request → Session → String → AdminState → Answer
  unfolding with_audit
  handle_node_concurrency now r s id a = elim (json.concurrency r.body) [
    | none ↦ (a, 400)
    | some v ↦ elim (get a.server.registry id) [
      | none ↦ (a, 404)
      | some p ↦ if v == 0 then (a, 400) else (
        with_audit now s "set_concurrency" id (record a {
          server = record a.server { registry = at p (set_max_concurrency v) a.server.registry };
        }),
        200,
      )
    ]
  ]

  unfoldable pub handle_cert_revoke : ℕ → Request → Session → AdminState → Answer
  unfolding cut_off get_cert revoke_cert add_audit
  handle_cert_revoke now r s a = elim (json.serial r.body) [
    | none ↦ (a, 400)
    | some serial ↦ if str_eq serial "" then (a, 400) else elim a.store [
      | none ↦ (a, 400)
      | some st ↦ elim (get_cert st serial) [
        | none ↦ (a, 400)
        | some meta ↦ elim (revoke_cert now serial "revoked_by_admin" st) [
          | none ↦ (a, 400)
          | some st' ↦ (
            record a {
              server = cut_off meta.node_id serial a.server;
              store = some (add_audit now s.username "revoke_cert" serial st');
            },
            200,
          )
        ]
      ]
    ]
  ]

  -- SetRetention, and the audit entry.
  unfoldable pub handle_retention : ℕ → Request → Session → AdminState → Answer
  unfolding with_audit
  handle_retention now r s a = elim (json.retention r.body) [
    | none ↦ (a, 400)
    | some (keep, days) ↦ (
      with_audit now s "set_retention" ""
          (record a { keep_prompt = keep; retention_days = if days == 0 then 30 else days }),
      200,
    )
  ]

  -- The switch of handleAPI.
  unfoldable pub route : ℕ → Bool → Request → Session → String → AdminState → Answer
  unfolding handle_logout handle_node_action handle_node_concurrency handle_cert_revoke
      handle_retention
  route now sent r s path a =
      if str_eq path "/logout" && str_eq r.method "POST"
      then handle_logout r a
      else if is_view path
      then (a, 200)
      else if starts_with path "/nodes/" && str_eq r.method "GET"
      then (
        a,
        elim (get a.server.registry (trim_prefix path "/nodes/")) [ none ↦ 404 | some p ↦ 200 ],
      )
      else if node_path path "/drain"
      then handle_node_action now sent s (node_id_of path "/drain") "drain" a
      else if node_path path "/kick"
      then handle_node_action now sent s (node_id_of path "/kick") "kick" a
      else if node_path path "/probe"
      then handle_node_action now sent s (node_id_of path "/probe") "probe" a
      else if node_path path "/concurrency"
      then handle_node_concurrency now r s (node_id_of path "/concurrency") a
      else if str_eq path "/capabilities" || str_eq path "/certs"
      then (a, 200)
      else if str_eq path "/certs/revoke"
      then handle_cert_revoke now r s a
      else if is_later_view path
      then (a, 200)
      else if str_eq path "/settings/retention"
      then handle_retention now r s a
      else (a, 404)

  -- What follows the session check.
  unfoldable pub handle_session : ℕ → Bool → Request → AdminState → Session → Answer
  unfolding route
  handle_session now sent r a s =
      if not (is_safe r.method) && reject_cross_origin r
      then (a, 403)
      else if str_eq s.role "readonly" && not (str_eq r.method "GET")
      then (a, 403)
      else route now sent r s (api_path r) a

  unfoldable pub handle_api : ℕ → Bool → Request → AdminState → Answer
  unfolding handle_session session_from_req
  handle_api now sent r a =
      if str_eq (api_path r) ""
      then (a, 404)
      else let (a', session) = session_from_req now r a in
        elim session [ none ↦ (a', 401) | some s ↦ handle_session now sent r a' s ]
