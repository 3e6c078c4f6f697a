-- ===== src/Agent/Requests/Cancellation.antt =====
-- Cancellation of the agent's requests (internal/agent/agent.go).
use modelrelay.Base.{
  ℕ, ◌≡◌, refl, ap, ◌∙◌, List, [], ◌∷◌, map, none, arith, All, lookup, byte_list_eq, length, take,
}
use modelrelay.Protocol.RequestId.Laws.{request_id_bytes-short}
use modelrelay.Agent.Requests.{AgentState, cancel_request, cancel_each, cancel_all}

module _ (sha256 : List ℕ → List ℕ) where
  -- The first 16 bytes of the key's hash are no key.
  abbrev pub IsApart : AgentState → List ℕ → Type 0
  IsApart a key = (length key ≡ 16) × (lookup (take 16 (sha256 key)) a.active ≡ none)

  cancel_request-key :
      (a : AgentState) (key : List ℕ) → IsApart a key → cancel_request sha256 key a ≡ a
  unfolding cancel_request
  cancel_request-key a key h =
      rw (cancel_request, request_id_bytes-short sha256 key (omega (arith, h.0)), h.1)

  cancel_each-keys :
      (a : AgentState) (keys : List (List ℕ)) → All (IsApart a) keys → cancel_each sha256 keys a ≡ a
  unfolding cancel_each
  cancel_each-keys a [] h = refl
  cancel_each-keys a (key ∷ keys) h =
      ap (cancel_each sha256 keys) (cancel_request-key a key h.0) ∙ cancel_each-keys a keys h.1

  -- cancelAll cancels no request: it hands the 16 bytes of each key to cancelRequest, which takes
  -- them for a request id and looks for their hash. If every key has 16 bytes and the first 16 bytes of
  -- its hash are no key, the state stays as it is.
  pub cancel_all-keys :
      (a : AgentState) → All (IsApart a) (map (λ e. e.0) a.active) → cancel_all sha256 a ≡ a
  unfolding cancel_all
  cancel_all-keys a h = cancel_each-keys a (map (λ e. e.0) a.active) h
