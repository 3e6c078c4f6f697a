-- ===== src/Relay/Registry/Listing.antt =====
-- The listing of a registry (List of internal/relay/registry.go) has the snapshot of each
-- registered node, and no other.
use modelrelay.Base.{
  ℕ, ◌≡◌, refl, ap, ◌⊎◌, inl, inr, String, List, [], ◌∷◌, map, some, string_eq, Bool-cases, IsMap,
  mem_of_lookup, lookup_of_mem,
}
use mathlib.Core.List.{Memᴰ}
use modelrelay.Relay.Node.{NodeSnapshot, snapshot}
use modelrelay.Relay.Registry.{Registry, get, text_le, insert_sorted, sort_by, list}

module _ {ℓ} {A : Type ℓ} where
  split : (x : A) {a : A} (ys : List A) → Memᴰ a (x ∷ ys) → (a ≡ x) ⊎ Memᴰ a ys
  split x ys (Memᴰ.head p) = inl p
  split x ys (Memᴰ.tail t) = inr t

  shift :
      {x : A} (y : A) {a : A} {zs ys : List A}
      → (Memᴰ a zs → (a ≡ x) ⊎ Memᴰ a ys)
      → Memᴰ a (y ∷ zs)
      → (a ≡ x) ⊎ Memᴰ a (y ∷ ys)
  shift y f (Memᴰ.head p) = inr (Memᴰ.head p)
  shift y f (Memᴰ.tail t) = elim (f t) [ inl p ↦ inl p | inr m ↦ inr (Memᴰ.tail m) ]

module _ {ℓ} {A : Type ℓ} (key : A → String) where
  mem-insert_sorted_head : (x : A) {a : A} (ys : List A) → a ≡ x → Memᴰ a (insert_sorted key x ys)
  unfolding insert_sorted
  mem-insert_sorted_head x [] p = Memᴰ.head p
  mem-insert_sorted_head x (y ∷ ys) p = elim (Bool-cases (text_le (key x) (key y))) [
    | inl before ↦ rw before (Memᴰ.head p)
    | inr after ↦ rw after (Memᴰ.tail (mem-insert_sorted_head x ys p))
  ]

  mem-insert_sorted_tail :
      (x : A) {a : A} (ys : List A) → Memᴰ a ys → Memᴰ a (insert_sorted key x ys)
  unfolding insert_sorted
  mem-insert_sorted_tail x [] h = elim h [ ]
  mem-insert_sorted_tail x (y ∷ ys) (Memᴰ.head p) = elim (Bool-cases (text_le (key x) (key y))) [
    | inl before ↦ rw before (Memᴰ.tail (Memᴰ.head p))
    | inr after ↦ rw after (Memᴰ.head p)
  ]
  mem-insert_sorted_tail x (y ∷ ys) (Memᴰ.tail h) = elim (Bool-cases (text_le (key x) (key y))) [
    | inl before ↦ rw before (Memᴰ.tail (Memᴰ.tail h))
    | inr after ↦ rw after (Memᴰ.tail (mem-insert_sorted_tail x ys h))
  ]

  mem_of_insert_sorted :
      (x : A) {a : A} (ys : List A) → Memᴰ a (insert_sorted key x ys) → (a ≡ x) ⊎ Memᴰ a ys
  unfolding insert_sorted
  mem_of_insert_sorted x [] (Memᴰ.head p) = inl p
  mem_of_insert_sorted x [] (Memᴰ.tail h) = elim h [ ]
  mem_of_insert_sorted x (y ∷ ys) h = elim (Bool-cases (text_le (key x) (key y))) [
    | inl before ↦ split x (y ∷ ys) (rw before at h)
    | inr after ↦ shift y (mem_of_insert_sorted x ys) (rw after at h)
  ]

  pub mem-sort_by : {a : A} (xs : List A) → Memᴰ a xs → Memᴰ a (sort_by key xs)
  unfolding sort_by
  mem-sort_by [] h = h
  mem-sort_by (x ∷ xs) (Memᴰ.head p) = mem-insert_sorted_head x (sort_by key xs) p
  mem-sort_by (x ∷ xs) (Memᴰ.tail h) = mem-insert_sorted_tail x (sort_by key xs) (mem-sort_by xs h)

  pub mem_of_sort_by : {a : A} (xs : List A) → Memᴰ a (sort_by key xs) → Memᴰ a xs
  unfolding sort_by
  mem_of_sort_by [] h = h
  mem_of_sort_by (x ∷ xs) h = elim (mem_of_insert_sorted x (sort_by key xs) h) [
    | inl p ↦ Memᴰ.head p
    | inr t ↦ Memᴰ.tail (mem_of_sort_by xs t)
  ]

module _ {ℓ κ} {A : Type ℓ} {B : Type κ} (f : A → B) where
  mem-map : {a : A} (xs : List A) → Memᴰ a xs → Memᴰ (f a) (map f xs)
  mem-map [] h = elim h [ ]
  mem-map (x ∷ xs) (Memᴰ.head p) = Memᴰ.head (ap f p)
  mem-map (x ∷ xs) (Memᴰ.tail h) = Memᴰ.tail (mem-map xs h)

  mem_of_map : {b : B} (xs : List A) → Memᴰ b (map f xs) → (a : A) × (b ≡ f a) × Memᴰ a xs
  mem_of_map [] h = elim h [ ]
  mem_of_map (x ∷ xs) (Memᴰ.head p) = (x, p, Memᴰ.head refl)
  mem_of_map (x ∷ xs) (Memᴰ.tail h) = let (a, p, m) = mem_of_map xs h in (a, p, Memᴰ.tail m)

-- A registered node's snapshot is listed.
pub mem-list :
    (r : Registry) (id : String) (p : ℕ) → get r id ≡ some p → Memᴰ (snapshot (r.heap p)) (list r)
unfolding list get
mem-list r id p h =
    mem-sort_by (λ s. s.id) _
      (mem-map (λ e. snapshot (r.heap e.1)) _ (mem_of_lookup id p r.nodes h))

-- What is listed is the snapshot of the node that its id leads to.
pub mem_of_list :
    (r : Registry) (s : NodeSnapshot)
    → IsMap r.nodes
    → Memᴰ s (list r)
    → (id : String) × (p : ℕ) × (s ≡ snapshot (r.heap p)) × (get r id ≡ some p)
unfolding list get
mem_of_list r s unique h =
    let (e, same, m) =
      mem_of_map (λ e. snapshot (r.heap e.1)) r.nodes (mem_of_sort_by (λ s. s.id) _ h) in
    (e.0, e.1, same, lookup_of_mem e.0 e.1 r.nodes unique m)
