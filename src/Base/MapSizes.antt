-- ===== src/Base/MapSizes.antt =====
-- How many entries a map has after a change.
use Prim.Native.Nat.{◌+◌}
use mathlib.Core.Path.{◌≡◌, refl, sym, ap}
use mathlib.Core.Logic.{inl, inr}
use mathlib.Core.List.{List, [], ◌∷◌}
use mathlib.Core.Option.{none, some}
use native.Mathlib.Omega.{arith}
use modelrelay.Base.Tests.{Bool-cases}
use modelrelay.Base.Lists.{length}
use modelrelay.Base.Maps.{Eq, lookup, insert, delete, IsMap, none-some}

module _ {ℓ κ} {K : Type ℓ} {V : Type κ} ⦃e : Eq K⦄ where
  pub length-insert :
      (k : K) (v w : V) (m : List (K × V)) → lookup k m ≡ some w → length (insert k v m) ≡ length m
  unfolding lookup insert
  length-insert k v w [] h = absurd (none-some h)
  length-insert k v w ((j, x) ∷ m) h = elim (Bool-cases (e.eqb j k)) [
    | inl same ↦ rw same
    | inr other ↦ rw other (omega (arith, length-insert k v w m (rw other at h)))
  ]

  pub delete_missing : (k : K) (m : List (K × V)) → lookup k m ≡ none → delete k m ≡ m
  unfolding lookup delete
  delete_missing k [] h = refl
  delete_missing k ((j, x) ∷ m) h = elim (Bool-cases (e.eqb j k)) [
    | inl same ↦ absurd (none-some (sym (rw same at h)))
    | inr other ↦ rw other (ap (◌∷◌ (j, x)) (delete_missing k m (rw other at h)))
  ]

  pub length-delete :
      (k : K) (w : V) (m : List (K × V))
      → IsMap m
      → lookup k m ≡ some w
      → length (delete k m) + 1 ≡ length m
  unfolding lookup delete
  length-delete k w [] u h = absurd (none-some h)
  length-delete k w ((j, x) ∷ m) u h = elim (Bool-cases (e.eqb j k)) [
    | inl same ↦
        let absent : lookup k m ≡ none = rw ((e.eqb_iff j k).0 same) at u.0 in
        rw same (omega (arith, ap length (delete_missing k m absent)))
    | inr other ↦ rw other (omega (arith, length-delete k w m u.1 (rw other at h)))
  ]
