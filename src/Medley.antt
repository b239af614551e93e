-- ===== src/Medley.antt =====
-- Helpers over lists of addresses (medley/medley.go).
pub mod Unique
use shielder.Base.{
  ◌+◌, ◌∷◌, ◌++◌, ◌==◌, if◌then◌else◌, ℕ, Option, none, some, List, [], contains, nat_eq,
}
use shielder.Shmsg.{Address}

-- The loop of `FindAddressIndex`, at index `i`.
pub find_from : ℕ → List Address → Address → Option ℕ
find_from i [] addr = none
find_from i (a ∷ rest) addr = if a == addr then some i else find_from (i + 1) rest addr

unfoldable pub find_address_index : List Address → Address → Option ℕ
unfolding find_from
find_address_index addresses addr = find_from 0 addresses addr

-- The loop of `EnsureUniqueAddresses`, with the addresses seen so far; it fails on a duplicate.
unique_from : List Address → List Address → Option Address
unique_from seen [] = none
unique_from seen (a ∷ rest) = if contains seen a then some a else unique_from (a ∷ seen) rest

unfoldable pub ensure_unique_addresses : List Address → Option Address
unfolding unique_from
ensure_unique_addresses addrs = unique_from [] addrs

-- The loop of `DedupAddresses`: `res` collects the addresses at their first place.
dedup_from : List Address → List Address → List Address → List Address
dedup_from seen res [] = res
dedup_from seen res (a ∷ rest) =
    let keep = dedup_from (a ∷ seen) (res ++ a ∷ []) rest in
    let skip = dedup_from seen res rest in if contains seen a then skip else keep

pub dedup_addresses : List Address → List Address
unfolding dedup_from
dedup_addresses addrs = dedup_from [] [] addrs
