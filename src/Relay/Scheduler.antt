-- ===== src/Relay/Scheduler.antt =====
-- internal/relay/scheduler.go: choosing a node for a model and a capability.
pub mod Choice
pub mod Busy
pub mod Least
pub mod Waiting
pub mod Capability
use text.Mathlib.Text.{◌==◌ as str_eq}
use modelrelay.Base.{
  ℕ, ◌+◌, ◌≡◌, ◌≢◌, Bool, true, false, not, ◌&&◌, ◌||◌, String, List, [], ◌∷◌, Option, none, some,
  ltb, ◌==◌, any, select, lookup, string_eq, if◌then◌else◌, Result, ok, err,
}
use modelrelay.Relay.Node.{
  Node, NodeSnapshot, ModelCap, is_serving, has_capacity, supports_model, model_snapshot,
}
use modelrelay.Relay.Registry.{Registry, get, list}

-- What the code uses of float64: quotients of integers and their order. `lt_connected` is the
-- order's negative transitivity, which holds of all floats but NaN.
pub record Float64 : Type 1 where
  pub F : Type 0
  pub IsNumber : F → Type 0
  pub one : F
  pub quotient : ℕ → ℕ → F
  pub lt : F → F → Bool
  pub one-IsNumber : IsNumber one
  pub quotient-IsNumber : (a b : ℕ) → b ≢ 0 → IsNumber (quotient a b)
  pub lt_irrefl : (x : F) → IsNumber x → lt x x ≡ false
  pub lt_asymm : (x y : F) → IsNumber x → IsNumber y → lt x y ≡ true → lt y x ≡ false
  pub lt_connected :
      (x y z : F)
      → IsNumber x
      → IsNumber y
      → IsNumber z
      → lt y x ≡ false
      → lt z y ≡ false
      → lt z x ≡ false

pub data SelectError : Type 0 where
  model_not_found capability_not_supported no_node_online all_nodes_busy : SelectError

unfoldable pub capability_for_path : String → String → String
capability_for_path method path =
    if str_eq method "POST" && str_eq path "/v1/chat/completions"
    then "chat_completions"
    else if str_eq method "POST" && str_eq path "/v1/completions"
    then "completions"
    else if str_eq method "POST" && str_eq path "/v1/embeddings"
    then "embeddings"
    else if str_eq method "POST" && str_eq path "/v1/responses"
    then "responses"
    else if str_eq method "POST" && str_eq path "/v1/audio/transcriptions"
    then "audio_transcriptions"
    else if str_eq method "POST" && str_eq path "/v1/audio/translations"
    then "audio_translations"
    else if str_eq method "POST" && str_eq path "/v1/audio/speech"
    then "audio_speech"
    else if str_eq method "POST" && str_eq path "/v1/images/generations"
    then "image_generations"
    else if str_eq method "POST" && str_eq path "/v1/images/edits"
    then "image_edits"
    else if str_eq method "POST" && str_eq path "/v1/images/variations"
    then "image_variations"
    else if str_eq method "POST" && str_eq path "/v1/moderations"
    then "moderations"
    else if str_eq method "POST" && str_eq path "/v1/rerank"
    then "rerank"
    else if str_eq method "POST" && str_eq path "/v1/reranking"
    then "rerank"
    else ""

-- One round of the loop over the snapshots: the candidate that the snapshot's id leads to.
unfoldable pub candidate_of : Registry → String → String → NodeSnapshot → Option ℕ
candidate_of r model capability snap =
    if not (is_serving snap.state) then none else elim (get r snap.id) [
      | none ↦ none
      | some p ↦
          if not (has_capacity (r.heap p))
          then none
          else if not (supports_model (r.heap p) model capability)
          then none
          else some p
    ]

unfoldable pub candidates_in : Registry → String → String → List NodeSnapshot → List ℕ
candidates_in r model capability [] = []
candidates_in r model capability (snap ∷ snaps) = elim (candidate_of r model capability snap) [
  | none ↦ candidates_in r model capability snaps
  | some p ↦ p ∷ candidates_in r model capability snaps
]

unfoldable pub candidates : Registry → String → String → List ℕ
candidates r model capability = candidates_in r model capability (list r)

-- The counts of `classifyNoNode`.
pub record Census : Type 0 where
  pub online : ℕ
  pub has_model : Bool
  pub cap_ok : Bool

abbrev lists_capability : Option ModelCap → String → Bool
lists_capability none capability = false
lists_capability (some mc) capability =
    if not mc.capabilities_complete then true else any (λ c. str_eq c capability) mc.capabilities

abbrev is_known : Option ModelCap → Bool
is_known none = false
is_known (some mc) = true

unfoldable pub census_step : Registry → String → String → Census → NodeSnapshot → Census
census_step r model capability c snap =
    let c' : Census = if is_serving snap.state then record c { online = c.online + 1 } else c in
    elim (get r snap.id) [
      | none ↦ c'
      | some p ↦
          let mc : Option ModelCap = lookup model (model_snapshot (r.heap p)) in
          record c' {
            has_model = c.has_model || is_known mc;
            cap_ok = c.cap_ok || lists_capability mc capability;
          }
    ]

unfoldable pub census_from : Registry → String → String → Census → List NodeSnapshot → Census
unfolding census_step
census_from r model capability c [] = c
census_from r model capability c (snap ∷ snaps) =
    census_from r model capability (census_step r model capability c snap) snaps

unfoldable pub classify : Census → SelectError
classify c =
    if c.online == 0
    then no_node_online
    else if not c.has_model
    then model_not_found
    else if not c.cap_ok
    then capability_not_supported
    else all_nodes_busy

unfoldable pub classify_no_node : Registry → String → String → SelectError
classify_no_node r model capability = classify (
    census_from r model capability (record { online = 0; has_model = false; cap_ok = false })
      (list r))

module _ (fl : Float64) where
  open fl use {F, one, quotient, lt}

  unfoldable pub load : Node → F
  load n = if n.max_concurrency == 0 then one else quotient n.active n.max_concurrency

  -- The least loaded of `best` and the rest; the first one in a tie.
  unfoldable pub least_loaded : Registry → ℕ → List ℕ → ℕ
  least_loaded r best [] = best
  least_loaded r best (c ∷ cs) =
      least_loaded r (if lt (load (r.heap c)) (load (r.heap best)) then c else best) cs

  unfoldable pub choose : Registry → SelectError → List ℕ → Result SelectError ℕ
  choose r e [] = err e
  choose r e (c ∷ cs) = ok (least_loaded r c cs)

  unfoldable pub select_node : Registry → String → String → Result SelectError ℕ
  select_node r model capability =
      choose r (classify_no_node r model capability) (candidates r model capability)
