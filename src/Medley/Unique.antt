-- ===== src/Medley/Unique.antt =====
-- What the duplicate check and the deduplication establish.
use shielder.Base.{
  ◌≡◌, ◌∙◌, ◌↔◌, ◌&&◌, ◌∷◌, ◌++◌, if◌then◌else◌, refl, sym, inl, inr, Bool, true, not, none, List,
  [], arith, Bool-cases, =ℕ_iff, all, contains, distinct, is_some, nat_eq,
}
use mathlib.Core.List.{append_assoc, append-nil}
use shielder.Shmsg.{Address}
use shielder.Medley.{unique_from, ensure_unique_addresses, dedup_from, dedup_addresses}

abbrev disjoint : List Address → List Address → Bool
disjoint seen xs = all (λ x. not (contains seen x)) xs

disjoint-cons :
    (a : Address) (seen xs : List Address)
    → disjoint (a ∷ seen) xs ≡ (not (contains xs a) && disjoint seen xs)
disjoint-cons a seen [] = refl
disjoint-cons a seen (x ∷ xs) = ground (arith, disjoint-cons a seen xs, =ℕ_iff a x, =ℕ_iff x a)

unique_from_lem :
    (seen xs : List Address) → is_some (unique_from seen xs) ≡ not (distinct xs && disjoint seen xs)
unfolding unique_from
unique_from_lem seen [] = refl
unique_from_lem seen (x ∷ xs) =
    ground (arith, unique_from_lem (x ∷ seen) xs, disjoint-cons x seen xs)

disjoint-nil : (xs : List Address) → disjoint [] xs ≡ true
disjoint-nil [] = refl
disjoint-nil (x ∷ xs) = disjoint-nil xs

-- The check for duplicates passes exactly the lists in which no address stands twice.
pub ensure_unique_addresses_iff :
    (xs : List Address) → (ensure_unique_addresses xs ≡ none) ↔ (distinct xs ≡ true)
unfolding ensure_unique_addresses
ensure_unique_addresses_iff xs = ground (arith, unique_from_lem [] xs, disjoint-nil xs)

-- The addresses of the second list that are new, at their first place.
fresh : List Address → List Address → List Address
fresh seen [] = []
fresh seen (x ∷ xs) =
    let keep = x ∷ fresh (x ∷ seen) xs in
    let skip = fresh seen xs in if contains seen x then skip else keep

dedup_from-fresh : (seen res xs : List Address) → dedup_from seen res xs ≡ res ++ fresh seen xs
unfolding dedup_from fresh
dedup_from-fresh seen res [] = sym (append-nil res)
dedup_from-fresh seen res (x ∷ xs) = elim (Bool-cases (contains seen x)) [
  | inl old ↦ rw old (dedup_from-fresh seen res xs)
  | inr new ↦ rw new (
      dedup_from-fresh (x ∷ seen) (res ++ x ∷ []) xs
      ∙ append_assoc res (x ∷ []) (fresh (x ∷ seen) xs))
]

contains-fresh :
    (seen xs : List Address) (a : Address)
    → contains (fresh seen xs) a ≡ (contains xs a && not (contains seen a))
unfolding fresh
contains-fresh seen [] a = refl
contains-fresh seen (x ∷ xs) a =
    ground (arith, contains-fresh seen xs a, contains-fresh (x ∷ seen) xs a, =ℕ_iff x a)

fresh-distinct : (seen xs : List Address) → distinct (fresh seen xs) ≡ true
unfolding fresh
fresh-distinct seen [] = refl
fresh-distinct seen (x ∷ xs) = ground (
  arith,
  fresh-distinct seen xs,
  fresh-distinct (x ∷ seen) xs,
  contains-fresh (x ∷ seen) xs x,
  =ℕ_iff x x,
)

fresh_self :
    (seen xs : List Address) → distinct xs ≡ true → disjoint seen xs ≡ true → fresh seen xs ≡ xs
unfolding fresh
fresh_self seen [] d h = refl
fresh_self seen (x ∷ xs) d h = ground (arith, disjoint-cons x seen xs, fresh_self (x ∷ seen) xs)

-- Deduplication gives a list with no address twice and with the same members, and leaves a list
-- that passes the check for duplicates as it is.
dedup_addresses_lem :
    (xs : List Address)
    → (distinct (dedup_addresses xs) ≡ true)
      × ((a : Address) → contains (dedup_addresses xs) a ≡ contains xs a)
      × (ensure_unique_addresses xs ≡ none → dedup_addresses xs ≡ xs)
unfolding dedup_addresses
dedup_addresses_lem xs = (
  rw (dedup_from-fresh [] [] xs) (fresh-distinct [] xs),
  λ a. rw (dedup_from-fresh [] [] xs) (ground (arith, contains-fresh [] xs a)),
  λ h.
      dedup_from-fresh [] [] xs
      ∙ fresh_self [] xs ((ensure_unique_addresses_iff xs).0 h) (disjoint-nil xs),
)
