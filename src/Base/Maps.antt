-- ===== src/Base/Maps.antt =====
-- Go's maps as association lists over keys with a lawful Boolean equality.
use Prim.Native.Nat.{ℕ}
use Prim.Native.String.{String}
use mathlib.Core.Path.{◌≡◌, refl, sym, ap, ap₂, ◌∙◌}
use mathlib.Core.Logic.{◌↔◌, ◌≢◌, inl, inr}
use mathlib.Core.Bool.{Bool, true, false, ◌&&◌, false≢true}
use mathlib.Core.List.{List, [], ◌∷◌, Memᴰ}
use mathlib.Core.Option.{Option, none, some}
use native.Mathlib.Omega.{arith}
use text.Mathlib.Text.{◌==◌ as str_eq}
use text.Mathlib.TextEquality.{eq_iff}
use modelrelay.Base.Tests.{if◌then◌else◌, ◌==◌, ==_iff, Bool-cases}

pub record Eq {ℓ} (A : Type ℓ) : Type ℓ where
  pub eqb : A → A → Bool
  pub eqb_iff : (x y : A) → (eqb x y ≡ true) ↔ (x ≡ y)

abbrev pub bytes_eq : List ℕ → List ℕ → Bool
bytes_eq [] [] = true
bytes_eq [] (y ∷ ys) = false
bytes_eq (x ∷ xs) [] = false
bytes_eq (x ∷ xs) (y ∷ ys) = x == y && bytes_eq xs ys

pub bytes_eq_iff : (xs ys : List ℕ) → (bytes_eq xs ys ≡ true) ↔ (xs ≡ ys)
bytes_eq_iff [] [] = (λ _. refl, λ _. refl)
bytes_eq_iff [] (y ∷ ys) = (λ h. cc, λ h. cc)
bytes_eq_iff (x ∷ xs) [] = (λ h. cc, λ h. cc)
bytes_eq_iff (x ∷ xs) (y ∷ ys) = ground (arith, bytes_eq_iff xs ys)

instance abbrev pub nat_eq : Eq ℕ
nat_eq = record { eqb = ◌==◌; eqb_iff = ==_iff }

instance abbrev pub string_eq : Eq String
string_eq = record { eqb = str_eq; eqb_iff = eq_iff }

instance abbrev pub byte_list_eq : Eq (List ℕ)
byte_list_eq = record { eqb = bytes_eq; eqb_iff = bytes_eq_iff }

module _ {ℓ} {K : Type ℓ} ⦃e : Eq K⦄ where
  pub eqb_refl : (k : K) → e.eqb k k ≡ true
  eqb_refl k = (e.eqb_iff k k).1 refl

  pub eqb_false : (k j : K) → k ≢ j → e.eqb k j ≡ false
  eqb_false k j h = elim (Bool-cases (e.eqb k j)) [
    | inl same ↦ absurd (h ((e.eqb_iff k j).0 same))
    | inr other ↦ other
  ]

pub none-some {ℓ} : {V : Type ℓ} {v : V} → none ≡ some v → ⊥
none-some h = cc

or_else {ℓ} : {X : Type ℓ} → X → Option X → X
or_else x none = x
or_else x (some y) = y

pub some-injective {ℓ} : {X : Type ℓ} {v w : X} → some v ≡ some w → v ≡ w
unfolding or_else
some-injective {v = v} h = ap (or_else v) h

false_of_path {ℓ} : {K : Type ℓ} ⦃e : Eq K⦄ (j k : K) → e.eqb j k ≡ false → k ≡ j → ⊥
false_of_path ⦃e⦄ j k h p = false≢true (sym h ∙ (e.eqb_iff j k).1 (sym p))

module _ {ℓ κ} {K : Type ℓ} {V : Type κ} ⦃e : Eq K⦄ where
  unfoldable pub lookup : K → List (K × V) → Option V
  lookup k [] = none
  lookup k ((j, v) ∷ m) = if e.eqb j k then some v else lookup k m

  unfoldable pub insert : K → V → List (K × V) → List (K × V)
  insert k v [] = (k, v) ∷ []
  insert k v ((j, w) ∷ m) = if e.eqb j k then (k, v) ∷ m else (j, w) ∷ insert k v m

  -- `delete(m, k)`: a map holds a key at most once, so all entries of `k` go.
  unfoldable pub delete : K → List (K × V) → List (K × V)
  delete k [] = []
  delete k ((j, w) ∷ m) = if e.eqb j k then delete k m else (j, w) ∷ delete k m

  pub lookup-insert :
      (k j : K) (v : V) (m : List (K × V))
      → lookup j (insert k v m) ≡ (if e.eqb k j then some v else lookup j m)
  unfolding lookup insert
  lookup-insert k j v [] = refl
  lookup-insert k j v ((i, w) ∷ m) =
      ground (arith, e.eqb_iff k j, e.eqb_iff i k, e.eqb_iff i j, lookup-insert k j v m)

  pub lookup-delete :
      (k j : K) (m : List (K × V))
      → lookup j (delete k m) ≡ (if e.eqb k j then none else lookup j m)
  unfolding lookup delete
  lookup-delete k j [] = ground arith
  lookup-delete k j ((i, w) ∷ m) =
      ground (arith, e.eqb_iff k j, e.eqb_iff i k, e.eqb_iff i j, lookup-delete k j m)

  pub lookup-insert_self : (k : K) (v : V) (m : List (K × V)) → lookup k (insert k v m) ≡ some v
  lookup-insert_self k v m = rw (lookup-insert k k v m, eqb_refl k)

  pub lookup-delete_self : (k : K) (m : List (K × V)) → lookup k (delete k m) ≡ none
  lookup-delete_self k m = rw (lookup-delete k k m, eqb_refl k)

  pub lookup-insert_ne :
      (k j : K) (v : V) (m : List (K × V)) → k ≢ j → lookup j (insert k v m) ≡ lookup j m
  lookup-insert_ne k j v m h = rw (lookup-insert k j v m, eqb_false k j h)

  pub lookup-delete_ne : (k j : K) (m : List (K × V)) → k ≢ j → lookup j (delete k m) ≡ lookup j m
  lookup-delete_ne k j m h = rw (lookup-delete k j m, eqb_false k j h)

  lookup-nil : (k : K) → lookup k [] ≡ none
  unfolding lookup
  lookup-nil k = refl

  deleted_none : (k j : K) (m : List (K × V)) → lookup j m ≡ none → lookup j (delete k m) ≡ none
  deleted_none k j m h = ground (arith, lookup-delete k j m)

  -- A Go map holds a key once.
  abbrev pub IsMap : List (K × V) → Type κ
  IsMap [] = Unit
  IsMap ((k, v) ∷ m) = (lookup k m ≡ none) × IsMap m

  pub insert-IsMap : (k : K) (v : V) (m : List (K × V)) → IsMap m → IsMap (insert k v m)
  unfolding insert
  insert-IsMap k v [] h = (lookup-nil k, tt)
  insert-IsMap k v ((j, w) ∷ m) h = elim (Bool-cases (e.eqb j k)) [
    | inl same ↦ rw same (rw ((e.eqb_iff j k).0 same) at h.0, h.1)
    | inr other ↦ rw other (
      rw (lookup-insert k j v m, eqb_false k j (λ p. false_of_path j k other p)) h.0,
      insert-IsMap k v m h.1,
    )
  ]

  pub delete-IsMap : (k : K) (m : List (K × V)) → IsMap m → IsMap (delete k m)
  unfolding delete
  delete-IsMap k [] h = tt
  delete-IsMap k ((j, w) ∷ m) h = elim (Bool-cases (e.eqb j k)) [
    | inl same ↦ rw same (delete-IsMap k m h.1)
    | inr other ↦ rw other (deleted_none k j m h.0, delete-IsMap k m h.1)
  ]

  pub lookup_of_mem :
      (k : K) (v : V) (m : List (K × V)) → IsMap m → Memᴰ (k, v) m → lookup k m ≡ some v
  unfolding lookup
  lookup_of_mem k v [] h x = elim x [ ]
  lookup_of_mem k v ((j, w) ∷ m) h (Memᴰ.head p) = ground (arith, p, e.eqb_iff j k)
  lookup_of_mem k v ((j, w) ∷ m) h (Memᴰ.tail t) =
      let found = lookup_of_mem k v m h.1 t in
      rw (eqb_false j k (λ p. none-some (sym h.0 ∙ ap (λ i. lookup i m) p ∙ found))) found

  pub mem_of_lookup : (k : K) (v : V) (m : List (K × V)) → lookup k m ≡ some v → Memᴰ (k, v) m
  unfolding lookup
  mem_of_lookup k v [] h = cc
  mem_of_lookup k v ((j, w) ∷ m) h = elim (Bool-cases (e.eqb j k)) [
    | inl same ↦
        let value : w ≡ v = ground arith in
        Memᴰ.head (ap₂ (λ a b. (a, b)) (sym ((e.eqb_iff j k).0 same)) (sym value))
    | inr other ↦ Memᴰ.tail (mem_of_lookup k v m (rw other at h))
  ]
