-- ===== src/Relay/Scheduler/Capability.antt =====
-- CapabilityForPath and classifyNoNode of internal/relay/scheduler.go against the whitelist of
-- internal/protocol/path.go and against Select.
use text.Mathlib.Text.{◌==◌ as str_eq}
use text.Mathlib.TextEquality.{eq_iff}
use mathlib.Core.Bool.{false≢true}
use modelrelay.Base.{
  ◌≡◌, ◌≢◌, ◌↔◌, refl, sym, ◌∙◌, inl, inr, Bool, true, false, not, ◌||◌, String, arith, string_eq,
  Bool-cases, if◌then◌else◌,
}
use modelrelay.Protocol.Path.{is_allowed_path, is_model_path}
use modelrelay.Relay.Scheduler.{capability_for_path}

-- One case of the switch, whose capability is not empty.
case_lem :
    (b : Bool) (s x : String) (r : Bool)
    → str_eq s "" ≡ false
    → not (str_eq x "") ≡ r
    → not (str_eq (if b then s else x) "") ≡ (b || r)
case_lem true s x r full e = rw full
case_lem false s x r full e = e

-- By POST, a path has a capability exactly if the whitelist knows it as a model path.
capability_for_path-post :
    (path : String) → not (str_eq (capability_for_path "POST" path) "") ≡ is_model_path path
unfolding capability_for_path
capability_for_path-post path =
    case_lem (str_eq path "/v1/chat/completions") "chat_completions" _ _ refl (
      case_lem (str_eq path "/v1/completions") "completions" _ _ refl (
        case_lem (str_eq path "/v1/embeddings") "embeddings" _ _ refl (
          case_lem (str_eq path "/v1/responses") "responses" _ _ refl (
            case_lem (str_eq path "/v1/audio/transcriptions") "audio_transcriptions" _ _ refl (
              case_lem (str_eq path "/v1/audio/translations") "audio_translations" _ _ refl (
                case_lem (str_eq path "/v1/audio/speech") "audio_speech" _ _ refl (
                  case_lem (str_eq path "/v1/images/generations") "image_generations" _ _ refl (
                    case_lem (str_eq path "/v1/images/edits") "image_edits" _ _ refl (
                      case_lem (str_eq path "/v1/images/variations") "image_variations" _ _ refl (
                        case_lem (str_eq path "/v1/moderations") "moderations" _ _ refl (
                          case_lem (str_eq path "/v1/rerank") "rerank" _ _ refl (
                            case_lem (str_eq path "/v1/reranking") "rerank" _ _ refl
                              refl))))))))))))

capability_for_path-other :
    (method path : String) → str_eq method "POST" ≡ false → capability_for_path method path ≡ ""
unfolding capability_for_path
capability_for_path-other method path e = rw e

allowed_lem : (b c : Bool) → (if b then true else (if c then false else false)) ≡ b
allowed_lem true c = refl
allowed_lem false true = refl
allowed_lem false false = refl

is_allowed_path-post : (path : String) → is_allowed_path "POST" path ≡ is_model_path path
unfolding is_allowed_path
is_allowed_path-post path = allowed_lem (is_model_path path) _

not-empty_iff : (c : String) → (not (str_eq c "") ≡ true) ↔ (c ≢ "")
not-empty_iff c = ground (arith, eq_iff c "")

post_iff :
    (path : String) → (capability_for_path "POST" path ≢ "") ↔ (is_allowed_path "POST" path ≡ true)
post_iff path =
    let e = capability_for_path-post path ∙ sym (is_allowed_path-post path) in
    (λ full. sym e ∙ (not-empty_iff _).1 full, λ allowed. (not-empty_iff _).0 (e ∙ allowed))

-- A request needs a capability exactly if it is a POST that the whitelist lets through.
capability_for_path-ne-nil :
    (method path : String)
    → (capability_for_path method path ≢ "")
      ↔ ((method ≡ "POST") × (is_allowed_path method path ≡ true))
capability_for_path-ne-nil method path = elim (Bool-cases (str_eq method "POST")) [
  | inl post ↦
      let is_post = (eq_iff method "POST").0 post in
      rw is_post (λ full. (refl, (post_iff path).0 full), λ h. (post_iff path).1 h.1)
  | inr other ↦ (
    λ full. absurd (full (capability_for_path-other method path other)),
    λ h. absurd (false≢true (sym other ∙ (eq_iff method "POST").1 h.0)),
  )
]
