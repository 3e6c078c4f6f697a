-- ===== src/Protocol/Path.antt =====
-- internal/protocol/path.go: the methods and paths that may be forwarded to an agent.
use text.Mathlib.Text.{◌==◌}
use modelrelay.Base.{String, Bool, false, ◌||◌, List, [], ◌∷◌, any, if◌then◌else◌}

abbrev pub model_paths : List String
model_paths =
    "/v1/chat/completions" ∷ "/v1/completions" ∷ "/v1/embeddings" ∷ "/v1/responses"
    ∷ "/v1/audio/transcriptions" ∷ "/v1/audio/translations" ∷ "/v1/audio/speech"
    ∷ "/v1/images/generations" ∷ "/v1/images/edits" ∷ "/v1/images/variations" ∷ "/v1/moderations"
    ∷ "/v1/rerank" ∷ "/v1/reranking" ∷ []

-- The first case of the switch.
abbrev pub is_model_path : String → Bool
is_model_path path = any (λ p. path == p) model_paths

unfoldable pub is_allowed_path : String → String → Bool
is_allowed_path method path =
    if is_model_path path
    then method == "POST" || method == "GET"
    else if path == "/v1/models" || path == "/v1/models/"
    then method == "GET"
    else false
