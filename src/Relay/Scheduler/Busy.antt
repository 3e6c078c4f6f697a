-- ===== src/Relay/Scheduler/Busy.antt =====
-- How classifyNoNode of internal/relay/scheduler.go reads a busy node when no capability is asked.
use text.Mathlib.Text.{◌==◌ as str_eq}
use modelrelay.Base.{
  ℕ, ◌≡◌, true, false, String, [], ◌∷◌, some, arith, any, lookup, string_eq, eqb_refl, err,
}
use modelrelay.Relay.Node.{
  ModelCap, snapshot, is_serving, has_capacity, supports_model, model_snapshot,
}
use modelrelay.Relay.Registry.{Registry, get, list, sort_by, insert_sorted}
use modelrelay.Relay.Scheduler.{
  Float64, capability_not_supported, candidate_of, candidates_in, candidates, census_from, classify,
  classify_no_node, choose, select_node,
}

module _ (fl : Float64) (r : Registry) (model : String) (p : ℕ) (mc : ModelCap) where
  module _ (only : r.nodes ≡ ((r.heap p).id, p) ∷ []) where
    list-only : list r ≡ snapshot (r.heap p) ∷ []
    unfolding list sort_by insert_sorted
    list-only = rw only

    get-only : get r (r.heap p).id ≡ some p
    unfolding get lookup
    get-only = rw (only, eqb_refl (r.heap p).id)

    candidates-full :
        is_serving (r.heap p).state ≡ true
        → has_capacity (r.heap p) ≡ false
        → candidates r model "" ≡ []
    unfolding candidates candidates_in candidate_of snapshot
    candidates-full serving full = rw list-only (ground (arith, get-only))

    census-only :
        is_serving (r.heap p).state ≡ true
        → lookup model (r.heap p).models ≡ some mc
        → mc.capabilities_complete ≡ true
        → any (λ c. str_eq c "") mc.capabilities ≡ false
        → classify_no_node r model "" ≡ capability_not_supported
    unfolding classify_no_node census_from classify snapshot model_snapshot
    census-only serving known complete none_empty = rw list-only (ground (arith, get-only))

    -- The only node serves, has the model with a complete catalogue and supports the request that
    -- asks for no capability, but is full: instead of "all nodes busy", for which WaitForNode
    -- waits, the error is that the capability is not supported, for which it does not.
    pub select_node-busy_without_capability :
        is_serving (r.heap p).state ≡ true
        → has_capacity (r.heap p) ≡ false
        → lookup model (r.heap p).models ≡ some mc
        → mc.capabilities_complete ≡ true
        → any (λ c. str_eq c "") mc.capabilities ≡ false
        → (supports_model (r.heap p) model "" ≡ true)
          × (select_node fl r model "" ≡ err capability_not_supported)
    unfolding select_node supports_model choose
    select_node-busy_without_capability serving full known complete none_empty =
        (rw known, rw (candidates-full serving full, census-only serving known complete none_empty))
