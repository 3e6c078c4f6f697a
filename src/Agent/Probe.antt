-- ===== src/Agent/Probe.antt =====
-- internal/agent/probe.go: which models and capabilities the agent reports. The calls of the local
-- model are inputs; times and the texts of errors are left out.
pub mod Reported
use text.Mathlib.Text.{◌==◌ as str_eq}
use modelrelay.Base.{
  ℕ, ◌+◌, ◌≡◌, refl, Bool, true, false, String, List, [], ◌∷◌, ◌++◌, map, Option, none, some, any,
  All, arith, if◌then◌else◌,
}
use modelrelay.Relay.Handshake.{ModelInfo, models_of}

-- The name of a probe in the configuration, and the capability that it tests.
pub record ProbeItem : Type 0 where
  pub name : String
  pub cap : String

abbrev pub item : String → String → ProbeItem
item name cap = record { name = name; cap = cap }

abbrev pub probes : List ProbeItem
probes =
    item "chat" "chat_completions"
    ∷ item "chat_stream" "chat_stream"
    ∷ item "completions" "completions"
    ∷ item "embeddings" "embeddings"
    ∷ item "responses" "responses"
    ∷ item "tools" "tools"
    ∷ []

pub record ProbeResult : Type 0 where
  pub model : String
  pub interface : String
  pub status : String

pub record ProbeState : Type 0 where
  pub models : List ModelInfo
  pub results : List ProbeResult
  pub last_ok : Bool
  pub probe_ok : Bool
  pub published : ℕ

abbrev pub result_of : String → String → String → ProbeResult
result_of model interface status = record { model = model; interface = interface; status = status }

-- `works model cap`: the probe of the model succeeds.
module _ (works : String → String → Bool) (enabled : List String) where
  unfoldable pub probe_items : String → List ProbeItem → List ProbeResult × List String
  probe_items model [] = ([], [])
  probe_items model (p ∷ ps) =
      let (results, caps) = probe_items model ps in
      if any (λ n. str_eq n p.name) enabled
      then (if works model p.cap
          then (result_of model p.cap "supported" ∷ results, p.cap ∷ caps)
          else (result_of model p.cap "unsupported" ∷ results, caps))
      else (results, caps)

  unfoldable pub probe_model : String → List ProbeResult × List String
  unfolding probe_items
  probe_model model = probe_items model probes

  -- The results of all models in order, and what is reported of them.
  unfoldable pub probe_models : List String → List ProbeResult × List ModelInfo
  unfolding probe_model
  probe_models [] = ([], [])
  probe_models (m ∷ ms) =
      let (results, caps) = probe_model m in
      let (later, infos) = probe_models ms in
      (
        results ++ later,
        record { id = m; capabilities = caps; capabilities_complete = false } ∷ infos,
      )

  abbrev pub set_ok : Bool → ProbeState → ProbeState
  set_ok b s = record s { probe_ok = b; last_ok = b }

  -- runOnce; `none`: the models cannot be listed.
  unfoldable pub run_once : Option (List String) → ProbeState → ProbeState
  unfolding probe_models
  run_once none s = set_ok false s
  run_once (some []) s = set_ok false s
  run_once (some (m ∷ ms)) s =
      let (results, infos) = probe_models (m ∷ ms) in
      record s {
        models = infos;
        published = s.published + 1;
        results = results;
        last_ok = true;
        probe_ok = true;
      }
