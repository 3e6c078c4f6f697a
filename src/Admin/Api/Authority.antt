-- ===== src/Admin/Api/Authority.antt =====
-- Who may change what through the admin API (internal/relay/admin.go).
use mathlib.Core.Bool.{false≢true}
use text.Mathlib.Text.{◌==◌ as str_eq, starts_with}
use modelrelay.Base.{
  ℕ, ◌≡◌, refl, sym, ap, ◌∙◌, inl, inr, Bool, true, false, not, ◌&&◌, ◌||◌, String, some, arith,
  string_eq, if◌then◌else◌, Bool-cases, Option-cases, if-cases, subst, ◌==◌,
}
use modelrelay.Admin.{AdminState, Session, Request, session_from_req, reject_cross_origin, is_safe}
use modelrelay.Admin.Api.{
  Decoders, route, handle_session, handle_api, api_path, handle_retention, with_audit, node_path,
  is_view, is_later_view,
}

-- Only the sessions may differ.
pub record Unchanged (a b : AdminState) : Type 0 where
  pub server : b.server ≡ a.server
  pub store : b.store ≡ a.store
  pub keep_prompt : b.keep_prompt ≡ a.keep_prompt
  pub retention_days : b.retention_days ≡ a.retention_days

session_from_req-Unchanged :
    (now : ℕ) (r : Request) (a : AdminState) → Unchanged a (session_from_req now r a).0
unfolding session_from_req
session_from_req-Unchanged now r a = record {
  server = ground arith;
  store = ground arith;
  keep_prompt = ground arith;
  retention_days = ground arith;
}

-- The two paths on which the switch does not look at the method of a change.
abbrev pub is_open_path : String → Bool
is_open_path path = str_eq path "/certs/revoke" || str_eq path "/settings/retention"

both_false : (b c : Bool) → (b && c) ≡ false → c ≡ true → b ≡ false
both_false true c h g = ground arith
both_false false c h g = refl

-- A path that is not under /nodes/ is no path of a node action.
not_node :
    (path suffix : String) → starts_with path "/nodes/" ≡ false → node_path path suffix ≡ true → ⊥
not_node path suffix h g = ground arith

route-get :
    (json : Decoders) (now : ℕ) (sent : Bool) (r : Request) (s : Session) (path : String)
    (a : AdminState)
    → str_eq r.method "GET" ≡ true
    → str_eq r.method "POST" ≡ false
    → is_open_path path ≡ false
    → (route json now sent r s path a).0 ≡ a
unfolding route
route-get json now sent r s path a get post shut =
    if-cases Same (str_eq path "/logout" && str_eq r.method "POST") (λ h. absurd (ground arith))
      λ _.
        if-cases Same (is_view path) (λ _. refl)
          λ _.
            if-cases Same (starts_with path "/nodes/" && str_eq r.method "GET") (λ _. refl)
              λ h.
                let away = both_false (starts_with path "/nodes/") (str_eq r.method "GET") h get in
                if-cases Same (node_path path "/drain")
                  (λ g. absurd (not_node path "/drain" away g))
                  λ _.
                    if-cases Same (node_path path "/kick")
                      (λ g. absurd (not_node path "/kick" away g))
                      λ _.
                        if-cases Same (node_path path "/probe")
                          (λ g. absurd (not_node path "/probe" away g))
                          λ _.
                            if-cases Same (node_path path "/concurrency")
                              (λ g. absurd (not_node path "/concurrency" away g))
                              λ _.
                                if-cases Same (str_eq path "/capabilities" || str_eq path "/certs")
                                  (λ _. refl)
                                  λ _.
                                    if-cases Same (str_eq path "/certs/revoke")
                                      (λ g. absurd (ground arith))
                                      λ _.
                                        if-cases Same (is_later_view path) (λ _. refl)
                                          λ _.
                                            if-cases Same (str_eq path "/settings/retention")
                                              (λ g. absurd (ground arith)) λ _. refl
  where
    Same : AdminState × ℕ → Type 0
    Same answer = answer.0 ≡ a

get_not_post : (method : String) → str_eq method "GET" ≡ true → str_eq method "POST" ≡ false
get_not_post method h = rw ((string_eq.eqb_iff method "GET").0 h)

Unchanged-refl : (a : AdminState) → Unchanged a a
Unchanged-refl a = record { server = refl; store = refl; keep_prompt = refl; retention_days = refl }

-- What a request to the API did: `a` is the state before, `b` the one after it.
pub data Outcome (now : ℕ) (r : Request) (a b : AdminState) : Type 0 where
  kept : Unchanged a b → Outcome now r a b
  authorised :
      (s : Session)
      → (session_from_req now r a).1 ≡ some s
      → (is_safe r.method ≡ false → reject_cross_origin r ≡ false)
      → (str_eq s.role "readonly" ≡ true → str_eq r.method "GET" ≡ true)
      → (str_eq r.method "GET" ≡ true → is_open_path (api_path r) ≡ true)
      → Outcome now r a b

module _ (json : Decoders) (now : ℕ) (sent : Bool) (r : Request) (a a' : AdminState) (s : Session)
    (same : Unchanged a a') (valid : (session_from_req now r a).1 ≡ some s) where
  After : AdminState × ℕ → Type 0
  After answer = Outcome now r a answer.0

  routed :
      (is_safe r.method ≡ false → reject_cross_origin r ≡ false)
      → (str_eq s.role "readonly" ≡ true → str_eq r.method "GET" ≡ true)
      → After (route json now sent r s (api_path r) a')
  unfolding After
  routed origin role = elim (Bool-cases (str_eq r.method "GET")) [
    | inr other ↦ authorised s valid origin role (λ get. absurd (false≢true (sym other ∙ get)))
    | inl get ↦ elim (Bool-cases (is_open_path (api_path r))) [
      | inl shown ↦ authorised s valid origin role (λ _. shown)
      | inr shut ↦ kept (
          subst (Unchanged a)
            (sym (route-get json now sent r s (api_path r) a' get (get_not_post r.method get) shut))
            same)
    ]
  ]

  handle_session-Outcome : After (handle_session json now sent r a' s)
  unfolding handle_session After
  handle_session-Outcome =
      if-cases After (not (is_safe r.method) && reject_cross_origin r) (λ _. kept same)
        λ origin.
          if-cases After (str_eq s.role "readonly" && not (str_eq r.method "GET")) (λ _. kept same)
            λ role. routed (λ h. ground arith) (λ h. ground arith)

-- A request to the API that changes the nodes, the certificates, the audit log or the retention
-- has a valid session; unless its method is GET, HEAD or OPTIONS it comes from the same origin;
-- with a readonly session its method is GET, and with GET it goes to /certs/revoke or to
-- /settings/retention.
pub handle_api-Outcome :
    (json : Decoders) (now : ℕ) (sent : Bool) (r : Request) (a : AdminState)
    → Outcome now r a (handle_api json now sent r a).0
unfolding handle_api After
handle_api-Outcome json now sent r a =
    if-cases (λ (answer : AdminState × ℕ). Outcome now r a answer.0) (str_eq (api_path r) "")
      (λ _. kept (Unchanged-refl a))
      λ _. elim (Option-cases (session_from_req now r a).1) [
        | inl none_valid ↦ rw none_valid (kept (session_from_req-Unchanged now r a))
        | inr (s, valid) ↦ rw valid (
            handle_session-Outcome json now sent r a (session_from_req now r a).0 s
              (session_from_req-Unchanged now r a) valid)
      ]

route-retention :
    (json : Decoders) (now : ℕ) (sent : Bool) (r : Request) (s : Session) (a : AdminState)
    → r.method ≡ "GET"
    → route json now sent r s "/settings/retention" a ≡ handle_retention json now r s a
unfolding route
route-retention json now sent r s a method = rw (route, method)

handle_retention-decoded :
    (json : Decoders) (now days : ℕ) (keep : Bool) (r : Request) (s : Session) (a : AdminState)
    → json.retention r.body ≡ some (keep, days)
    → ((handle_retention json now r s a).1 ≡ 200)
      × ((handle_retention json now r s a).0.keep_prompt ≡ keep)
      × ((handle_retention json now r s a).0.retention_days ≡ (if days == 0 then 30 else days))
unfolding handle_retention with_audit
handle_retention-decoded json now days keep r s a body = ground (arith, body)

handle_session-get :
    (json : Decoders) (now : ℕ) (sent : Bool) (r : Request) (a : AdminState) (s : Session)
    → r.method ≡ "GET"
    → handle_session json now sent r a s ≡ route json now sent r s (api_path r) a
unfolding handle_session
handle_session-get json now sent r a s method =
    let safe : (not (is_safe r.method) && reject_cross_origin r) ≡ false = rw method in
    let reads : (str_eq s.role "readonly" && not (str_eq r.method "GET")) ≡ false =
      ground (arith, ap (λ m. str_eq m "GET") method) in
    rw (handle_session, safe, reads)

pub handle_api-route :
    (json : Decoders) (now : ℕ) (sent : Bool) (r : Request) (a : AdminState) (s : Session)
    → str_eq (api_path r) "" ≡ false
    → (session_from_req now r a).1 ≡ some s
    → handle_api json now sent r a ≡ handle_session json now sent r (session_from_req now r a).0 s
unfolding handle_api
handle_api-route json now sent r a s path valid = rw (handle_api, path, valid)

-- A readonly session changes the retention: GET on /api/settings/retention with a body that
-- decodes is answered 200 and sets both values.
pub handle_api-readonly_retention :
    (json : Decoders) (now days : ℕ) (sent keep : Bool) (r : Request) (a : AdminState) (s : Session)
    → r.method ≡ "GET"
    → r.path ≡ "/api/settings/retention"
    → (session_from_req now r a).1 ≡ some s
    → s.role ≡ "readonly"
    → json.retention r.body ≡ some (keep, days)
    → ((handle_api json now sent r a).1 ≡ 200)
      × ((handle_api json now sent r a).0.keep_prompt ≡ keep)
      × ((handle_api json now sent r a).0.retention_days ≡ (if days == 0 then 30 else days))
handle_api-readonly_retention json now days sent keep r a s method path valid role body =
    rw
      (
        handle_api-route json now sent r a s (rw path) valid,
        handle_session-get json now sent r (session_from_req now r a).0 s method,
        there,
        route-retention json now sent r s (session_from_req now r a).0 method,
      )
      (handle_retention-decoded json now days keep r s _ body)
  where
    there : api_path r ≡ "/settings/retention"
    there = rw path
