-- ===== src/Config/Laws.antt =====
-- What the checks on a batch config establish.
use shielder.Base.{
  ◌+◌, ◌≤◌, ◌<◌, ◌≡◌, ◌↔◌, ◌∷◌, ◌==◌, ℕ, suc, refl, inl, inr, true, none, some, List, [], arith,
  Bool-cases, =ℕ_iff, length, get_elem?, contains, distinct, is_some, word_mod, sign_bit, ok,
  Result-cases, nat_eq,
}
use shielder.Shmsg.{Address, BatchConfigMsg}
use shielder.Medley.Unique.{ensure_unique_addresses_iff}
use shielder.External.{External}
use shielder.Config.{
  keypers_from_message, BatchConfig, keyper_index_from, keyper_index, is_keyper, ensure_valid,
  batch_config_from_message, address_length,
}

keyper_index_from-contains :
    (i : ℕ) (ks : List Address) (a : Address) → is_some (keyper_index_from i ks a) ≡ contains ks a
unfolding keyper_index_from
keyper_index_from-contains i [] a = refl
keyper_index_from-contains i (k ∷ ks) a = ground (arith, keyper_index_from-contains (i + 1) ks a)

pub is_keyper-contains : (bc : BatchConfig) (a : Address) → is_keyper bc a ≡ contains bc.keypers a
unfolding is_keyper
is_keyper-contains bc a = keyper_index_from-contains 0 bc.keypers a

keyper_index_from_lem :
    (i j : ℕ) (ks : List Address) (a : Address)
    → keyper_index_from i ks a ≡ some j
    → (n : ℕ) × (j ≡ i + n) × (get_elem? ks n ≡ some a)
unfolding keyper_index_from
keyper_index_from_lem i j [] a h = cc
keyper_index_from_lem i j (k ∷ ks) a h = elim (Bool-cases (k == a)) [
  | inl e ↦ (0, ground arith, ground (arith, =ℕ_iff k a))
  | inr e ↦
      let (n, p, q) = keyper_index_from_lem (i + 1) j ks a (ground arith) in (suc n, omega arith, q)
]

-- At an index that `KeyperIndex` returns for an address, the list of keypers has that address.
pub keyper_index_lem :
    (bc : BatchConfig) (a : Address) (i : ℕ)
    → keyper_index bc a ≡ some i
    → get_elem? bc.keypers i ≡ some a
unfolding keyper_index
keyper_index_lem bc a i h =
    let (n, p, q) = keyper_index_from_lem 0 i bc.keypers a h in
    let e : i ≡ n = omega arith in rw e q

-- For a threshold and a number of keypers below 2^63, a config is valid exactly if its threshold
-- is positive and at most the number of its keypers.
ensure_valid_iff :
    (bc : BatchConfig)
    → bc.threshold < sign_bit
    → length bc.keypers < sign_bit
    → (ensure_valid bc ≡ none) ↔ ((0 < bc.threshold) × (bc.threshold ≤ length bc.keypers))
unfolding ensure_valid
ensure_valid_iff bc h k = (λ e. (ground arith, ground arith), λ e. ground arith)

-- A config with at least one keyper, fewer than 2^63 of them, and a threshold from 2^63 up to the
-- greatest `uint64` passes the check, although its threshold exceeds the number of its keypers.
pub ensure_valid_huge :
    (bc : BatchConfig)
    → sign_bit ≤ bc.threshold
    → bc.threshold < word_mod
    → 0 < length bc.keypers
    → length bc.keypers < sign_bit
    → (ensure_valid bc ≡ none) × (length bc.keypers < bc.threshold)
unfolding ensure_valid
ensure_valid_huge bc h k p q = (ground arith, omega arith)

module _ (x : External) where
  -- A config that is read from a message has no keyper twice, and has the message's batch index,
  -- threshold, config index and started flag; the message's contract address has the length of an
  -- address.
  pub batch_config_from_message_lem :
      (m : BatchConfigMsg) (bc : BatchConfig)
      → batch_config_from_message x m ≡ ok bc
      → (distinct bc.keypers ≡ true)
        × (bc.start_batch_index ≡ m.start_batch_index)
        × (bc.threshold ≡ m.threshold)
        × (bc.config_index ≡ m.config_index)
        × (bc.started ≡ m.started)
        × (length m.config_contract_address ≡ address_length)
  unfolding batch_config_from_message
  batch_config_from_message_lem m bc h = elim (Result-cases (keypers_from_message x m.keypers)) [
    | inl (ks, e) ↦ ground (arith, ensure_unique_addresses_iff ks)
    | inr (_, e) ↦ ground arith
  ]
