-- ===== src/Relay/Registry.antt =====
-- The registry of internal/relay/registry.go. Nodes are shared by pointer between the registry,
-- the connections and the requests, so they stand in a heap, and the registry maps an id to an
-- address. Each operation runs under the registry's lock.
pub mod Listing
pub mod Identity
use Prim.Native.String.{compare}
use Prim.Native.Nat.{Ordering}
use modelrelay.Base.{
  ℕ, ◌+◌, Bool, true, false, not, String, List, [], ◌∷◌, map, Option, none, some, ◌==◌, lookup,
  insert, delete, string_eq, if◌then◌else◌,
}
use modelrelay.Relay.Node.{
  NodeState, connecting, online, suspect, degraded, draining, offline, Node, NodeSnapshot, snapshot,
  set_state,
}

pub record Registry : Type 0 where
  pub heap : ℕ → Node
  pub nodes : List (String × ℕ)

-- A method call through a pointer.
unfoldable pub at : ℕ → (Node → Node) → Registry → Registry
at p f r = record r { heap = λ q. if q == p then f (r.heap q) else r.heap q }

abbrev is_offline : NodeState → Bool
is_offline offline = true
is_offline _ = false

unfoldable pub register : ℕ → Registry → Registry
register p r = record r { nodes = insert (r.heap p).id p r.nodes }

unfoldable pub try_register : ℕ → Registry → Registry × Bool
unfolding register
try_register p r = elim (lookup (r.heap p).id r.nodes) [
  | none ↦ (register p r, true)
  | some old ↦ if is_offline (snapshot (r.heap old)).state then (register p r, true) else (r, false)
]

unfoldable pub get : Registry → String → Option ℕ
get r id = lookup id r.nodes

abbrev is_connected : NodeState → Bool
is_connected online = true
is_connected suspect = true
is_connected degraded = true
is_connected draining = true
is_connected _ = false

unfoldable pub exists_online : Registry → String → Bool
exists_online r id = elim (lookup id r.nodes) [
  | none ↦ false
  | some p ↦ is_connected (snapshot (r.heap p)).state
]

unfoldable pub remove : String → Registry → Registry
remove id r = record r { nodes = delete id r.nodes }

unfoldable pub remove_if_same : String → ℕ → Registry → Registry × Bool
unfolding remove
remove_if_same id expected r = elim (lookup id r.nodes) [
  | none ↦ (r, false)
  | some current ↦ if current == expected then (remove id r, true) else (r, false)
]

-- `sort.Slice` by a text key, as an insertion sort.
abbrev pub text_le : String → String → Bool
text_le a b = elim (compare a b) [ Ordering.gt ↦ false | _ ↦ true ]

module _ {ℓ} {A : Type ℓ} (key : A → String) where
  unfoldable pub insert_sorted : A → List A → List A
  insert_sorted x [] = x ∷ []
  insert_sorted x (y ∷ ys) = if text_le (key x) (key y) then x ∷ y ∷ ys else y ∷ insert_sorted x ys

  unfoldable pub sort_by : List A → List A
  unfolding insert_sorted
  sort_by [] = []
  sort_by (x ∷ xs) = insert_sorted x (sort_by xs)

unfoldable pub list : Registry → List NodeSnapshot
list r = sort_by (λ s. s.id) (map (λ e. snapshot (r.heap e.1)) r.nodes)

-- One `out[state]++`.
abbrev state_eq : NodeState → NodeState → Bool
state_eq connecting connecting = true
state_eq online online = true
state_eq suspect suspect = true
state_eq degraded degraded = true
state_eq draining draining = true
state_eq offline offline = true
state_eq _ _ = false

counted : (ℕ → Node) → NodeState → List (String × ℕ) → ℕ
counted heap s [] = 0
counted heap s ((id, p) ∷ rest) =
    if state_eq (snapshot (heap p)).state s then counted heap s rest + 1 else counted heap s rest

unfoldable pub count_by_state : Registry → NodeState → ℕ
unfolding counted
count_by_state r s = counted r.heap s r.nodes
