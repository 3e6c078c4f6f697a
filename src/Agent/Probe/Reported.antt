-- ===== src/Agent/Probe/Reported.antt =====
-- What the relay's scheduler makes of the models that a probe reports (internal/agent/probe.go,
-- internal/relay/registry.go).
use text.Mathlib.Text.{◌==◌ as str_eq}
use modelrelay.Base.{
  ℕ, ◌≡◌, refl, sym, ap, ◌∙◌, inl, inr, Bool, true, false, String, List, [], ◌∷◌, some, All, lookup,
  insert, lookup-insert, string_eq, if-cases, Bool-cases, none-some, some-injective,
}
use modelrelay.Relay.Node.{Node, ModelCap, supports, supports_model, set_models}
use modelrelay.Relay.Handshake.{ModelInfo, models_of}
use modelrelay.Agent.Probe.{probe_models}

probe_models-incomplete :
    (works : String → String → Bool) (enabled ms : List String)
    → All (λ m. m.capabilities_complete ≡ false) (probe_models works enabled ms).1
unfolding probe_models
probe_models-incomplete works enabled [] = tt
probe_models-incomplete works enabled (m ∷ ms) = (refl, probe_models-incomplete works enabled ms)

-- Every entry leaves its list of capabilities open.
abbrev IsOpen : List (String × ModelCap) → Type 0
IsOpen models =
    (id : String) (mc : ModelCap) → lookup id models ≡ some mc → mc.capabilities_complete ≡ false

models_of-IsOpen :
    (now : ℕ) (ms : List ModelInfo) (out : List (String × ModelCap))
    → All (λ m. m.capabilities_complete ≡ false) ms
    → IsOpen out
    → IsOpen (models_of now ms out)
unfolding models_of
models_of-IsOpen now [] out h v = v
models_of-IsOpen now (m ∷ ms) out h v = models_of-IsOpen now ms _ h.1 inserted
  where
    new : ModelCap
    new = record {
      id = m.id;
      capabilities = m.capabilities;
      capabilities_complete = m.capabilities_complete;
      probe_time = now;
    }

    inserted : IsOpen (insert m.id new out)
    inserted id mc found =
        let e = sym (lookup-insert m.id id new out) ∙ found in
        elim (Bool-cases (string_eq.eqb m.id id)) [
          | inl same ↦
              let it : some new ≡ some mc = rw same at e in
              ap (λ c. c.capabilities_complete) (sym (some-injective it)) ∙ h.0
          | inr other ↦ let it : lookup id out ≡ some mc = rw other at e in v id mc it
        ]

nothing-IsOpen : IsOpen []
unfolding lookup
nothing-IsOpen id mc found = absurd (none-some found)

supports-open :
    (mc : ModelCap) (cap : String)
    → mc.capabilities_complete ≡ false
    → supports (some mc) cap ≡ true
supports-open mc cap closed =
    if-cases (λ b. b ≡ true) (str_eq cap "") (λ _. refl) (λ _. rw closed refl)

-- A model that the agent's probe reports is never refused for a capability: the relay takes it to
-- support every one, also those whose probe failed.
supports_model-probe_models :
    (works : String → String → Bool) (enabled ms : List String) (now : ℕ) (n : Node)
    (id cap : String) (mc : ModelCap)
    → let models = models_of now (probe_models works enabled ms).1 [] in
      lookup id models ≡ some mc → supports_model (set_models models n) id cap ≡ true
unfolding supports_model set_models
supports_model-probe_models works enabled ms now n id cap mc found =
    rw (supports_model, found)
      (supports-open mc cap (
        models_of-IsOpen now (probe_models works enabled ms).1 []
          (probe_models-incomplete works enabled ms) nothing-IsOpen id mc found))
