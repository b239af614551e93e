-- ===== src/Base/Search/First.antt =====
-- The binary search finds what a search from the beginning finds.
use shielder.Base.{
  ◌+◌, ◌-◌, ◌/◌, ◌≤◌, ◌≡◌, ◌∙◌, ◌∷◌, if◌then◌else◌, ℕ, zero, suc, refl, inl, inr, Bool, true, List,
  [], arith, ltb, leb, Bool-cases, length, all, lt_of_leb, le_of_leb, le_of_ltb, lt_of_ltb,
}
use shielder.Base.Search.{search_loop, test_at, sort_search}

-- The index of the first element for which the test holds, or the length.
unfoldable pub first_index {ℓ} : {A : Type ℓ} → (A → Bool) → List A → ℕ
first_index p [] = 0
first_index p (a ∷ rest) = if p a then 0 else suc (first_index p rest)

-- Behind an element for which the test holds, it holds of every element.
abbrev pub IsUpward {ℓ} : {A : Type ℓ} → (A → Bool) → List A → Type 0
IsUpward p [] = Unit
IsUpward p (a ∷ rest) = (p a ≡ true → all p rest ≡ true) × IsUpward p rest

search_loop-eq :
    (fuel : ℕ) (q : ℕ → Bool) (f i j : ℕ)
    → ((k : ℕ) → q k ≡ leb f k)
    → i ≤ f
    → f ≤ j
    → j - i ≤ fuel
    → search_loop fuel q i j ≡ f
unfolding search_loop
search_loop-eq zero q f i j h low high enough = omega (arith, low, high, enough)
search_loop-eq (suc fuel) q f i j h low high enough = elim (Bool-cases (ltb i j)) [
  | inr done ↦ rw done (omega (arith, low, high, le_of_ltb i j done))
  | inl go ↦
      let less = lt_of_ltb i j go in
      let mid = (i + j) / 2 in
      rw go (
        rw (h mid) (elim (Bool-cases (leb f mid)) [
          | inl holds ↦
              let at = le_of_leb f mid holds in
              rw holds (search_loop-eq fuel q f i mid h low at (omega (arith, enough, less)))
          | inr fails ↦
              let behind = lt_of_leb f mid fails in
              rw fails (
                search_loop-eq fuel q f (mid + 1) j h (omega (arith, behind)) high
                  (omega (arith, enough, less)))
        ]))
]

module _ {ℓ} {A : Type ℓ} (p : A → Bool) where
  test_at-all : (xs : List A) (k : ℕ) → all p xs ≡ true → test_at p xs k ≡ true
  unfolding test_at
  test_at-all [] k h = refl
  test_at-all (a ∷ rest) zero h = ground (arith, h)
  test_at-all (a ∷ rest) (suc k) h = test_at-all rest k (ground (arith, h))

  test_at-eq : (xs : List A) (k : ℕ) → IsUpward p xs → test_at p xs k ≡ leb (first_index p xs) k
  unfolding first_index test_at
  test_at-eq [] k h = ground arith
  test_at-eq (a ∷ rest) zero h = ground arith
  test_at-eq (a ∷ rest) (suc k) h = elim (Bool-cases (p a)) [
    | inl here ↦ rw here (test_at-all rest k (h.0 here) ∙ ground arith)
    | inr later ↦ rw later (test_at-eq rest k h.1 ∙ ground arith)
  ]

  first_index-le : (xs : List A) → first_index p xs ≤ length xs
  unfolding first_index
  first_index-le [] = omega arith
  first_index-le (a ∷ rest) = ground (arith, first_index-le rest)

  pub sort_search-first_index : (xs : List A) → IsUpward p xs → sort_search p xs ≡ first_index p xs
  unfolding sort_search
  sort_search-first_index xs h =
      search_loop-eq (length xs) (test_at p xs) (first_index p xs) 0 (length xs)
        (λ k. test_at-eq xs k h) (omega arith) (first_index-le xs) (omega arith)
