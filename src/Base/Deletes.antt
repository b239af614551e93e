-- ===== src/Base/Deletes.antt =====
-- Go's `delete` from a map in which each key stands once.
use mathlib.Core.Path.{◌≡◌, refl}
use mathlib.Core.Bool.{false}
use mathlib.Core.Option.{none}
use mathlib.Core.List.{[], ◌∷◌}
use native.Mathlib.Omega.{arith}
use shielder.Base.Tests.{Eq, ◌==◌}
use shielder.Base.Lists.{contains}
use shielder.Base.Maps.{Map, get, delete, keys, HasKeysOnce}

module _ {ℓ κ} {K : Type ℓ} {V : Type κ} ⦃e : Eq K⦄ where
  pub get-delete_other : (k j : K) (m : Map K V) → (k == j) ≡ false → get j (delete k m) ≡ get j m
  unfolding get delete
  get-delete_other k j [] h = refl
  get-delete_other k j ((i, w) ∷ m) h =
      ground (arith, e.beq_iff k j, e.beq_iff i k, e.beq_iff i j, get-delete_other k j m h)

  not_found : (k : K) (m : Map K V) → contains (keys m) k ≡ false → get k m ≡ none
  unfolding get
  not_found k [] h = refl
  not_found k ((i, w) ∷ m) h = ground (arith, not_found k m)

  pub get-delete_self : (k : K) (m : Map K V) → HasKeysOnce m → get k (delete k m) ≡ none
  unfolding get delete
  get-delete_self k [] h = refl
  get-delete_self k ((i, w) ∷ m) h =
      ground (arith, e.beq_iff i k, not_found k m, get-delete_self k m)

  contains-delete :
      (k j : K) (m : Map K V) → contains (keys m) j ≡ false → contains (keys (delete k m)) j ≡ false
  unfolding delete
  contains-delete k j [] h = refl
  contains-delete k j ((i, w) ∷ m) h = ground (arith, contains-delete k j m)

  pub delete-HasKeysOnce : (k : K) (m : Map K V) → HasKeysOnce m → HasKeysOnce (delete k m)
  unfolding delete
  delete-HasKeysOnce k [] h = refl
  delete-HasKeysOnce k ((i, w) ∷ m) h =
      ground (arith, contains-delete k i m, delete-HasKeysOnce k m)
