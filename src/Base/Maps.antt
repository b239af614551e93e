-- ===== src/Base/Maps.antt =====
-- A Go map as an association list with at most one pair for a key: `put` overwrites in place.
-- The order of the pairs stands for one order in which Go may iterate over the map.
use Prim.Native.Nat.{◌≤◌}
use mathlib.Core.Path.{◌≡◌, refl, ap, subst}
use mathlib.Core.Logic.{inl, inr}
use mathlib.Core.Bool.{◌||◌, Bool, true, false}
use mathlib.Core.List.{List, [], ◌∷◌, ◌++◌, map}
use mathlib.Core.Option.{Option, none, some}
use native.Mathlib.Omega.{arith}
use shielder.Base.Tests.{Bool-cases, Eq, ◌==◌, if◌then◌else◌, beq_self}
use shielder.Base.Lists.{All, length, contains, distinct}

abbrev pub Map {ℓ κ} : Type ℓ → Type κ → Type (ℓ ⊔ κ)
Map K V = List (K × V)

abbrev pub is_some {ℓ} : {A : Type ℓ} → Option A → Bool
is_some none = false
is_some (some a) = true

abbrev pub get_or_else {ℓ} : {A : Type ℓ} → Option A → A → A
get_or_else none d = d
get_or_else (some a) d = a

module _ {ℓ κ} {K : Type ℓ} {V : Type κ} ⦃e : Eq K⦄ where
  -- `v, ok := m[k]`
  unfoldable pub get : K → Map K V → Option V
  get k [] = none
  get k ((j, v) ∷ m) = if j == k then some v else get k m

  -- `m[k] = v`
  unfoldable pub put : K → V → Map K V → Map K V
  put k v [] = (k, v) ∷ []
  put k v ((j, w) ∷ m) = if j == k then (j, v) ∷ m else (j, w) ∷ put k v m

  -- `delete(m, k)`
  unfoldable pub delete : K → Map K V → Map K V
  delete k [] = []
  delete k ((j, w) ∷ m) = if j == k then m else (j, w) ∷ delete k m

  abbrev pub has : K → Map K V → Bool
  has k m = is_some (get k m)

  pub get-put :
      (k j : K) (v : V) (m : Map K V) → get j (put k v m) ≡ (if k == j then some v else get j m)
  unfolding get put
  get-put k j v [] = refl
  get-put k j v ((i, w) ∷ m) =
      ground (arith, e.beq_iff k j, e.beq_iff i k, e.beq_iff i j, get-put k j v m)

  pub get-put_self : (k : K) (v : V) (m : Map K V) → get k (put k v m) ≡ some v
  get-put_self k v m = ground (arith, get-put k k v m, beq_self k)

  pub length-put : (k : K) (v : V) (m : Map K V) → length m ≤ length (put k v m)
  unfolding put
  length-put k v [] = omega arith
  length-put k v ((i, w) ∷ m) = ground (arith, length-put k v m)

  -- Each key stands once.
  abbrev pub HasKeysOnce : Map K V → Type 0
  HasKeysOnce m = distinct (map (λ p. p.0) m) ≡ true

  contains-put :
      (k j : K) (v : V) (m : Map K V)
      → contains (map (λ p. p.0) (put k v m)) j
        ≡ (if k == j then true else contains (map (λ p. p.0) m) j)
  unfolding put
  contains-put k j v [] = ground arith
  contains-put k j v ((i, w) ∷ m) =
      ground (arith, e.beq_iff k j, e.beq_iff i k, e.beq_iff i j, contains-put k j v m)

  pub put-HasKeysOnce : (k : K) (v : V) (m : Map K V) → HasKeysOnce m → HasKeysOnce (put k v m)
  unfolding put
  put-HasKeysOnce k v [] h = refl
  put-HasKeysOnce k v ((i, w) ∷ m) h =
      ground (arith, put-HasKeysOnce k v m, contains-put k i v m, e.beq_iff i k, e.beq_iff k i)

-- The keys of a map.
abbrev pub keys {ℓ κ} : {K : Type ℓ} {V : Type κ} → Map K V → List K
keys m = map (λ p. p.0) m

module _ {ℓ κ} {K : Type ℓ} {V : Type κ} ⦃e : Eq K⦄ where
  -- What holds of every pair holds of the pair that a lookup finds.
  pub All-get {μ} :
      (P : K × V → Type μ) (m : Map K V) (k : K) (v : V) → All P m → get k m ≡ some v → P (k, v)
  unfolding get
  All-get P [] k v h p = cc
  All-get P ((j, w) ∷ m) k v h p = elim (Bool-cases (j == k)) [
    | inl same ↦ subst P (ground (arith, e.beq_iff j k)) h.0
    | inr other ↦ All-get P m k v h.1 (rw other at p)
  ]

  pub All-put {μ} :
      (P : K × V → Type μ) (k : K) (v : V) (m : Map K V) → All P m → P (k, v) → All P (put k v m)
  unfolding put
  All-put P k v [] h p = (p, tt)
  All-put P k v ((j, w) ∷ m) h p = elim (Bool-cases (j == k)) [
    | inl same ↦ rw same (subst P (ground (arith, e.beq_iff j k)) p, h.1)
    | inr other ↦ rw other (h.0, All-put P k v m h.1 p)
  ]

  pub All-delete {μ} : (P : K × V → Type μ) (k : K) (m : Map K V) → All P m → All P (delete k m)
  unfolding delete
  All-delete P k [] h = tt
  All-delete P k ((j, w) ∷ m) h = elim (Bool-cases (j == k)) [
    | inl same ↦ rw same h.1
    | inr other ↦ rw other (h.0, All-delete P k m h.1)
  ]

  -- A new key goes to the end.
  pub put_new : (k : K) (v : V) (m : Map K V) → get k m ≡ none → put k v m ≡ m ++ (k, v) ∷ []
  unfolding put get
  put_new k v [] h = refl
  put_new k v ((j, w) ∷ m) h = elim (Bool-cases (j == k)) [
    | inl same ↦ absurd (ground arith)
    | inr other ↦ rw other (ap (◌∷◌ (j, w)) (put_new k v m (rw other at h)))
  ]

  abbrev IsFound : Map K V → K × V → Type κ
  IsFound m p = get p.0 m ≡ some p.1

  IsFound-cons :
      (k : K) (v : V) (m rest : Map K V)
      → contains (keys rest) k ≡ false
      → All (IsFound m) rest
      → All (IsFound ((k, v) ∷ m)) rest
  unfolding get
  IsFound-cons k v m [] h a = tt
  IsFound-cons k v m ((j, w) ∷ rest) h a =
      (ground (arith, e.beq_iff k j, e.beq_iff j k), IsFound-cons k v m rest (ground arith) a.1)

  -- In a map with each key once, every pair is what a lookup of its key finds.
  pub HasKeysOnce-IsFound : (m : Map K V) → HasKeysOnce m → All (λ p. get p.0 m ≡ some p.1) m
  unfolding get
  HasKeysOnce-IsFound [] h = tt
  HasKeysOnce-IsFound ((k, v) ∷ m) h =
      (rw (beq_self k), IsFound-cons k v m m (ground arith) (HasKeysOnce-IsFound m (ground arith)))

-- A `map[K]struct{}` as the list of its keys: `s[k] = struct{}{}` adds a key that is new.
module _ {ℓ} {K : Type ℓ} ⦃e : Eq K⦄ where
  unfoldable pub insert : K → List K → List K
  insert k s = if contains s k then s else s ++ k ∷ []

  contains_append : (s t : List K) (k : K) → contains (s ++ t) k ≡ (contains s k || contains t k)
  contains_append [] t k = refl
  contains_append (x ∷ s) t k = ground (arith, contains_append s t k)

  pub contains-insert : (k j : K) (s : List K) → contains (insert k s) j ≡ (k == j || contains s j)
  unfolding insert
  contains-insert k j s = elim (Bool-cases (contains s k)) [
    | inl old ↦ rw old (ground (arith, e.beq_iff k j, λ (p : k ≡ j). ap (contains s) p))
    | inr new ↦ rw new (ground (arith, contains_append s (k ∷ []) j))
  ]
