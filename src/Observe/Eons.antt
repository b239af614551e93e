-- ===== src/Observe/Eons.antt =====
-- The eons that a keyper knows stay in their order, so that the binary search finds them.
use shielder.Base.{
  ◌≤◌, ◌<◌, ◌≡◌, ◌∙◌, ◌∷◌, ◌++◌, ◌==◌, if◌then◌else◌, ℕ, zero, suc, refl, ap, inl, inr, Bool, true,
  Option, none, some, List, [], map, arith, ltb, leb, Bool-cases, Option-cases, length, get_elem?,
  set, All, all, All-append, lt_of_leb, le_of_leb, nat_eq,
}
use shielder.Base.Search.First.{first_index, IsUpward, sort_search-first_index}
use shielder.External.{External}
use shielder.Observe.Shielder.{Eon, Shielder, search_eon, find_eon_at, find_eon}

-- Each number is below those behind it.
abbrev pub IsAscending : List ℕ → Type 0
IsAscending [] = Unit
IsAscending (n ∷ ns) = All (λ m. n < m) ns × IsAscending ns

module _ {x : External} where
  abbrev pub numbers : List (Eon x) → List ℕ
  numbers eons = map (λ e. e.eon) eons

  -- The eon with a number, by a search from the beginning.
  pub eon_numbered : List (Eon x) → ℕ → Option (Eon x)
  eon_numbered [] n = none
  eon_numbered (e ∷ rest) n = if e.eon == n then some e else eon_numbered rest n

  abbrev pub from_number : ℕ → Eon x → Bool
  from_number n e = leb n (e.eon)

  all_from :
      (n m : ℕ) (eons : List (Eon x))
      → n ≤ m
      → All (λ k. m < k) (numbers eons)
      → all (from_number n) eons ≡ true
  all_from n m [] h a = refl
  all_from n m (e ∷ rest) h a = ground (arith, a.0, all_from n m rest h a.1)

  IsAscending-IsUpward :
      (n : ℕ) (eons : List (Eon x)) → IsAscending (numbers eons) → IsUpward (from_number n) eons
  IsAscending-IsUpward n [] h = tt
  IsAscending-IsUpward n (e ∷ rest) h = (
    λ from. all_from n (e.eon) rest (le_of_leb n (e.eon) from) h.0,
    IsAscending-IsUpward n rest h.1,
  )

  none_numbered :
      (n m : ℕ) (eons : List (Eon x))
      → n ≤ m
      → All (λ k. m < k) (numbers eons)
      → eon_numbered eons n ≡ none
  unfolding eon_numbered
  none_numbered n m [] h a = refl
  none_numbered n m (e ∷ rest) h a = ground (arith, a.0, none_numbered n m rest h a.1)

  abbrev exactly : ℕ → Option (Eon x) → Option (Eon x)
  exactly n none = none
  exactly n (some e) = if ltb n (e.eon) then none else some e

  first_numbered :
      (n : ℕ) (eons : List (Eon x))
      → IsAscending (numbers eons)
      → exactly n (get_elem? eons (first_index (from_number n) eons)) ≡ eon_numbered eons n
  unfolding first_index eon_numbered
  first_numbered n [] h = refl
  first_numbered n (e ∷ rest) h = elim (Bool-cases (leb n (e.eon))) [
    | inl from ↦
        rw from (ground (arith, from, none_numbered n (e.eon) rest (le_of_leb n (e.eon) from) h.0))
    | inr below ↦ rw below (first_numbered n rest h.1 ∙ ground (arith, below))
  ]

  find_eon-exactly :
      (s : Shielder x) (n : ℕ) → find_eon s n ≡ exactly n (get_elem? (s.eons) (search_eon s n))
  unfolding find_eon
  find_eon-exactly s n = elim (Option-cases (get_elem? (s.eons) (search_eon s n))) [
    | inl missing ↦ ground (arith, missing)
    | inr (e, there) ↦ ground (arith, there)
  ]

  pub search_eon-first :
      (s : Shielder x) (n : ℕ)
      → IsAscending (numbers (s.eons))
      → search_eon s n ≡ first_index (from_number n) (s.eons)
  unfolding search_eon
  search_eon-first s n h =
      sort_search-first_index (from_number n) (s.eons) (IsAscending-IsUpward n (s.eons) h)

  pub find_eon_lem :
      (s : Shielder x) (n : ℕ)
      → IsAscending (numbers (s.eons))
      → find_eon s n ≡ eon_numbered (s.eons) n
  find_eon_lem s n h =
      find_eon-exactly s n
      ∙ ap (λ i. exactly n (get_elem? (s.eons) i)) (search_eon-first s n h)
      ∙ first_numbered n (s.eons) h

  -- A changed eon keeps its number.
  pub numbers-set :
      (eons : List (Eon x)) (i : ℕ) (e d : Eon x)
      → get_elem? eons i ≡ some e
      → d.eon ≡ e.eon
      → numbers (set eons i d) ≡ numbers eons
  numbers-set [] i e d h same = cc
  numbers-set (f ∷ rest) zero e d h same = ground (arith, h, same)
  numbers-set (f ∷ rest) (suc i) e d h same = ap (◌∷◌ (f.eon)) (numbers-set rest i e d h same)

  pub numbers-append :
      (eons : List (Eon x)) (d : Eon x) → numbers (eons ++ d ∷ []) ≡ numbers eons ++ d.eon ∷ []
  numbers-append [] d = refl
  numbers-append (e ∷ rest) d = ap (◌∷◌ (e.eon)) (numbers-append rest d)

  pub none_from :
      (n : ℕ) (eons : List (Eon x))
      → length eons ≤ first_index (from_number n) eons
      → All (λ m. m < n) (numbers eons)
  unfolding first_index
  none_from n [] h = tt
  none_from n (e ∷ rest) h = elim (Bool-cases (leb n (e.eon))) [
    | inl from ↦ absurd (ground (arith, from))
    | inr below ↦ (lt_of_leb n (e.eon) below, none_from n rest (ground (arith, below)))
  ]

  pub found_at :
      (s : Shielder x) (n i : ℕ) (e : Eon x)
      → find_eon_at s n ≡ some (i, e)
      → get_elem? (s.eons) i ≡ some e
  unfolding find_eon_at
  found_at s n i e h = elim (Option-cases (get_elem? (s.eons) (search_eon s n))) [
    | inl missing ↦ absurd (ground (arith, missing))
    | inr (d, there) ↦ ground (arith, there, h)
  ]

pub IsAscending-append :
    (ns : List ℕ) (n : ℕ) → IsAscending ns → All (λ m. m < n) ns → IsAscending (ns ++ n ∷ [])
IsAscending-append [] n h below = (tt, tt)
IsAscending-append (m ∷ ns) n h below =
    (All-append (λ k. m < k) ns (n ∷ []) h.0 (below.0, tt), IsAscending-append ns n h.1 below.1)
