-- ===== src/Base/Search.antt =====
-- Go's `sort.Search`, a binary search for the first index at which a test holds.
pub mod First
use shielder.Base.{
  ◌+◌, ◌/◌, if◌then◌else◌, ℕ, zero, suc, Bool, true, not, none, some, List, ltb, length, get_elem?,
}

-- The loop, between `i` and `j`.
search_loop : ℕ → (ℕ → Bool) → ℕ → ℕ → ℕ
search_loop zero p i j = i
search_loop (suc fuel) p i j =
    let h = (i + j) / 2 in
    let right = search_loop fuel p (h + 1) j in
    let left = search_loop fuel p i h in if ltb i j then (if not (p h) then right else left) else i

-- The test of the element at an index; no index that is tried is out of range.
test_at {ℓ} : {A : Type ℓ} → (A → Bool) → List A → ℕ → Bool
test_at p xs i = elim (get_elem? xs i) [ none ↦ true | some a ↦ p a ]

-- `sort.Search(len(xs), func(i int) bool { ... xs[i] ... })`
unfoldable pub sort_search {ℓ} : {A : Type ℓ} → (A → Bool) → List A → ℕ
unfolding search_loop test_at
sort_search p xs = search_loop (length xs) (test_at p xs) 0 (length xs)
