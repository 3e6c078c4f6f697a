-- ===== src/Relay/Upstream/Access.antt =====
-- What reaches the agents, and who learns of the models (internal/relay/http.go).
use text.Mathlib.Text.{◌==◌ as str_eq, starts_with}
use text.Mathlib.TextEquality.{eq_iff}
use mathlib.Core.Bool.{false≢true}
use mathlib.Core.List.{Memᴰ}
use modelrelay.Base.{
  ℕ, ◌≤◌, ◌≡◌, ◌≢◌, refl, sym, ◌∙◌, inl, inr, true, String, List, [], ◌∷◌, arith, ltb, length,
  trim_prefix, subst, if-cases, Bool-cases, Option-cases, Result, ok, err,
}
use modelrelay.Protocol.Path.{is_allowed_path}
use modelrelay.Relay.Registry.{Registry}
use modelrelay.Relay.Directory.{ModelDirectoryEntry, model_directory}
use modelrelay.Relay.Upstream.{
  UpstreamConfig, HttpRequest, Handled, relay_error, models, model, proxied, check_auth, normalized,
  find_model, read_body, pass_on, handed_on, route, admitted, handle,
}

-- The token is asked for, set, and the one that the request carries.
abbrev pub IsAuthorized : UpstreamConfig → HttpRequest → Type 0
IsAuthorized cfg r =
    cfg.internal_auth_enabled ≡ true
    → (cfg.internal_auth_token ≢ "")
      × (trim_prefix r.authorization "Bearer " ≡ cfg.internal_auth_token)

-- What the answer says of the request.
pub data Access (cfg : UpstreamConfig) (reg : Registry) (r : HttpRequest) : Handled → Type 0 where
  failed : (code message : String) → Access cfg reg r (relay_error code message)
  listed : IsAuthorized cfg r → Access cfg reg r (models (model_directory reg))
  detailed :
      (e : ModelDirectoryEntry)
      → IsAuthorized cfg r
      → trim_prefix (normalized r.path) "/v1/models/" ≡ e.id
      → Memᴰ e (model_directory reg)
      → Access cfg reg r (model e)
  passed :
      IsAuthorized cfg r
      → is_allowed_path r.method (normalized r.path) ≡ true
      → length r.body ≤ cfg.max_body_bytes
      → Access cfg reg r (proxied r.method (normalized r.path) r.query r.body)

-- A check that fails answers with an error; one that succeeds has established `Q`.
data Checked {A : Type 0} (Q : A → Type 0) : Result Handled A → Type 0 where
  fails : (code message : String) → Checked Q (err (relay_error code message))
  holds : (a : A) → Q a → Checked Q (ok a)

check_auth-Checked :
    (cfg : UpstreamConfig) (r : HttpRequest) → Checked (λ _. IsAuthorized cfg r) (check_auth cfg r)
unfolding check_auth
check_auth-Checked cfg r = elim (Bool-cases cfg.internal_auth_enabled) [
  | inr open_to_all ↦ rw (check_auth, open_to_all) (holds tt (λ h. absurd (false≢true h)))
  | inl enabled ↦ elim (Bool-cases (str_eq cfg.internal_auth_token "")) [
    | inl blank ↦ rw (check_auth, enabled, blank) (fails _ _)
    | inr set ↦
        elim (Bool-cases (str_eq (trim_prefix r.authorization "Bearer ") cfg.internal_auth_token)) [
          | inr wrong ↦ rw (check_auth, enabled, set, wrong) (fails _ _)
          | inl right ↦
              rw (check_auth, enabled, set, right)
                (holds tt (λ _.
                  (λ blank. false≢true (sym set ∙ (eq_iff _ _).1 blank), (eq_iff _ _).0 right)))
        ]
  ]
]

-- The body that is passed on, and what was checked for it.
abbrev IsPassed : UpstreamConfig → HttpRequest → String → List ℕ → Type 0
IsPassed cfg r path body =
    (is_allowed_path r.method path ≡ true) × (length r.body ≤ cfg.max_body_bytes) × (r.body ≡ body)

pass_on-Checked :
    (cfg : UpstreamConfig) (r : HttpRequest) (path : String)
    → Checked (IsPassed cfg r path) (pass_on cfg r path)
unfolding pass_on read_body
pass_on-Checked cfg r path = elim (Bool-cases (is_allowed_path r.method path)) [
  | inr unknown ↦ rw (pass_on, unknown) (fails _ _)
  | inl allowed ↦ elim (Bool-cases (ltb cfg.max_body_bytes (length r.body))) [
    | inl large ↦ rw (pass_on, allowed, large) (fails _ _)
    | inr small ↦ elim (Option-cases r.read_error) [
      | inr (e, broken) ↦ rw (pass_on, allowed, small, broken) (fails _ _)
      | inl whole ↦ rw (pass_on, allowed, small, whole) (holds r.body (allowed, ground arith, refl))
    ]
  ]
]

find_model-found :
    (P : Handled → Type 0) (id : String) (es : List ModelDirectoryEntry)
    → ((code message : String) → P (relay_error code message))
    → ((e : ModelDirectoryEntry) → id ≡ e.id → Memᴰ e es → P (model e))
    → P (find_model id es)
unfolding find_model
find_model-found P id [] f g = f _ _
find_model-found P id (e ∷ es) f g = elim (Bool-cases (str_eq e.id id)) [
  | inl same ↦ rw same (g e (sym ((eq_iff _ _).0 same)) (Memᴰ.head refl))
  | inr other ↦ rw other (find_model-found P id es f (λ d h m. g d h (Memᴰ.tail m)))
]

module _ (cfg : UpstreamConfig) (reg : Registry) (r : HttpRequest) where
  handed_on-Access :
      (y : Result Handled (List ℕ))
      → IsAuthorized cfg r
      → Checked (IsPassed cfg r (normalized r.path)) y
      → Access cfg reg r (handed_on r (normalized r.path) y)
  handed_on-Access _ auth (fails code message) = failed code message
  handed_on-Access _ auth (holds body (allowed, small, same)) =
      subst (λ b. Access cfg reg r (proxied r.method (normalized r.path) r.query b)) same
        (passed auth allowed small)

  route-Access : IsAuthorized cfg r → Access cfg reg r (route cfg reg r (normalized r.path))
  unfolding route
  route-Access auth =
      if-cases (Access cfg reg r) (str_eq (normalized r.path) "/v1/models") (λ _. listed auth)
        (λ _.
          if-cases (Access cfg reg r) (starts_with (normalized r.path) "/v1/models/")
            (λ _.
              find_model-found (Access cfg reg r) (trim_prefix (normalized r.path) "/v1/models/")
                (model_directory reg) failed (λ e id m. detailed e auth id m))
            (λ _. handed_on-Access _ auth (pass_on-Checked cfg r (normalized r.path))))

  admitted-Access :
      (y : Result Handled (Unit {0}))
      → Checked (λ _. IsAuthorized cfg r) y
      → Access cfg reg r (admitted cfg reg r y)
  admitted-Access _ (fails code message) = failed code message
  admitted-Access _ (holds _ auth) = route-Access auth

  -- A request that is answered otherwise than by an error carries the configured token, which is not
  -- empty, where one is asked for. Then it is answered with the directory, with the entry of the model
  -- that the path names, or by handleProxy, which gets the normalized path, allowed for the method, and
  -- the whole body, within the limit.
  pub handle-Access : Access cfg reg r (handle cfg reg r)
  unfolding handle
  handle-Access = admitted-Access (check_auth cfg r) (check_auth-Checked cfg r)
