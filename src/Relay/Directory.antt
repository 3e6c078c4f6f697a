-- ===== src/Relay/Directory.antt =====
-- ModelDirectory of internal/relay/registry.go. Go leaves the order of a map's entries open; here it is
-- that of the association list.
use text.Mathlib.Text.{◌==◌ as str_eq}
use modelrelay.Base.{
  ℕ, String, List, [], ◌∷◌, ◌++◌, map, Option, none, some, any, lookup, insert, string_eq,
  if◌then◌else◌,
}
use modelrelay.Relay.Node.{ModelCap, is_serving, snapshot, model_snapshot}
use modelrelay.Relay.Registry.{Registry, sort_by}

pub record ModelDirectoryEntry : Type 0 where
  pub id : String
  pub nodes : List String
  pub capabilities : List String

abbrev pub Directory : Type 0
Directory = List (String × ModelDirectoryEntry)

-- The capabilities that were not seen, in order; `caps` is what the entry has by then.
unfoldable pub add_unseen : List String → List String → List String
add_unseen [] caps = caps
add_unseen (c ∷ cs) caps =
    let without = add_unseen cs caps in
    let extended = add_unseen cs (caps ++ (c ∷ [])) in
    if any (λ d. str_eq d c) caps then without else extended

abbrev entry_or_new : String → Option ModelDirectoryEntry → ModelDirectoryEntry
entry_or_new id none = record { id = id; nodes = []; capabilities = [] }
entry_or_new id (some e) = e

unfoldable pub merge_model : String → String × ModelCap → Directory → Directory
unfolding add_unseen
merge_model node_id (id, mc) merged =
    let e = entry_or_new id (lookup id merged) in
    insert id
      (record e {
        nodes = e.nodes ++ (node_id ∷ []);
        capabilities = add_unseen mc.capabilities e.capabilities;
      })
      merged

unfoldable pub merge_models : String → List (String × ModelCap) → Directory → Directory
unfolding merge_model
merge_models node_id [] merged = merged
merge_models node_id (m ∷ ms) merged = merge_models node_id ms (merge_model node_id m merged)

unfoldable pub merge_nodes : Registry → List (String × ℕ) → Directory → Directory
unfolding merge_models
merge_nodes r [] merged = merged
merge_nodes r ((id, p) ∷ rest) merged = merge_nodes r rest (
    if is_serving (snapshot (r.heap p)).state
    then merge_models (r.heap p).id (model_snapshot (r.heap p)) merged
    else merged)

unfoldable pub model_directory : Registry → List ModelDirectoryEntry
unfolding merge_nodes
model_directory r = sort_by (λ e. e.id) (map (λ e. e.1) (merge_nodes r r.nodes []))
