-- ===== src/Config.antt =====
-- Batch configs (keyper/shutterevents/batchconfig.go and the struct in events.go).
pub mod Laws
use shielder.Base.{
  ◌+◌, ◌≡◌, ◌↔◌, ◌&&◌, ◌∷◌, ◌==◌, if◌then◌else◌, ◌>>=◌, ◌>>◌, ℕ, Bool, true, false, not, Option,
  none, some, List, [], arith, Eq, list_beq_iff, length, is_some, signed_lt, Result, ok, err,
  nat_eq, list_eq,
}
use shielder.Shmsg.{Bytes, Address, BatchConfigMsg}
use shielder.External.{External}
use shielder.Medley.{ensure_unique_addresses}

pub record BatchConfig : Type 0 where
  pub height : ℕ
  pub keypers : List Address
  pub start_batch_index : ℕ
  pub threshold : ℕ
  pub config_index : ℕ
  pub config_contract_address : Address
  pub started : Bool
  pub validators_updated : Bool

-- `BatchConfig{}`
abbrev pub empty_config : BatchConfig
empty_config = record {
  height = 0;
  keypers = [];
  start_batch_index = 0;
  threshold = 0;
  config_index = 0;
  config_contract_address = 0;
  started = false;
  validators_updated = false;
}

pub data ConfigError : Type 0 where
  no_keypers zero_threshold threshold_too_high keyper_address_length duplicate_address
        contract_address_length :
      ConfigError

-- The loop of `KeyperIndex`, at index `i`.
keyper_index_from : ℕ → List Address → Address → Option ℕ
keyper_index_from i [] address = none
keyper_index_from i (k ∷ rest) address =
    if k == address then some i else keyper_index_from (i + 1) rest address

unfoldable pub keyper_index : BatchConfig → Address → Option ℕ
unfolding keyper_index_from
keyper_index bc address = keyper_index_from 0 bc.keypers address

unfoldable pub is_keyper : BatchConfig → Address → Bool
unfolding keyper_index
is_keyper bc candidate = is_some (keyper_index bc candidate)

-- `EnsureValid`. `int(bc.Threshold)` has the bits of the `uint64`, read as a signed number.
unfoldable pub ensure_valid : BatchConfig → Option ConfigError
ensure_valid bc =
    if length bc.keypers == 0
    then some no_keypers
    else if bc.threshold == 0
    then some zero_threshold
    else if signed_lt (length bc.keypers) bc.threshold
    then some threshold_too_high
    else none

-- The length that `common.Address` has.
abbrev pub address_length : ℕ
address_length = 20

module _ (x : External) where
  -- The loop over `m.Keypers`.
  keypers_from_message : List Bytes → Result ConfigError (List Address)
  keypers_from_message [] = ok []
  keypers_from_message (b ∷ bs) =
      let rest = keypers_from_message bs in
      if length b == address_length
      then rest >>= (λ ks. ok (x.bytes_to_address b ∷ ks))
      else err keyper_address_length

  unfoldable pub batch_config_from_message : BatchConfigMsg → Result ConfigError BatchConfig
  unfolding keypers_from_message
  batch_config_from_message m = do
    keypers ← keypers_from_message m.keypers
    (if is_some (ensure_unique_addresses keypers) then some duplicate_address else none)
    (if length m.config_contract_address == address_length
        then none
        else some contract_address_length)
    ok (record {
      height = 0;
      keypers = keypers;
      start_batch_index = m.start_batch_index;
      threshold = m.threshold;
      config_index = m.config_index;
      config_contract_address = x.bytes_to_address m.config_contract_address;
      started = m.started;
      validators_updated = m.validators_updated;
    })

-- `reflect.DeepEqual` of two configs.
abbrev bool_beq : Bool → Bool → Bool
bool_beq true b = b
bool_beq false b = not b

abbrev config_beq : BatchConfig → BatchConfig → Bool
config_beq a b =
    a.height == b.height
    && a.keypers == b.keypers
    && a.start_batch_index == b.start_batch_index
    && a.threshold == b.threshold
    && a.config_index == b.config_index
    && a.config_contract_address == b.config_contract_address
    && bool_beq a.started b.started
    && bool_beq a.validators_updated b.validators_updated

pub config_beq_iff : (a b : BatchConfig) → (config_beq a b ≡ true) ↔ (a ≡ b)
config_beq_iff a b = ground (arith, list_beq_iff a.keypers b.keypers)

instance abbrev pub config_eq : Eq BatchConfig
config_eq = record { beq = config_beq; beq_iff = config_beq_iff }
