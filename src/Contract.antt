-- ===== src/Contract.antt =====
-- The configs of the main chain's config contract (contract/config.go, and the structs of
-- contract/binding.go). What the contract answers is a parameter.
pub mod Blocks
use shielder.Base.{
  ◌+◌, ◌-◌, ◌/◌, ◌%◌, ◌∷◌, ◌==◌, if◌then◌else◌, ◌>>=◌, ℕ, zero, suc, Bool, Option, none, some, List,
  [], ltb, leb, get_elem?, set, is_some, add64, Result, ok, err, or_err, mul64, nat_eq,
}
use shielder.Shmsg.{Bytes, Address}
use shielder.Medley.{dedup_addresses}
use shielder.Panic.{Panic, bad_argument, index_out_of_range}

pub record BatchConfig : Type 0 where
  pub start_batch_index : ℕ
  pub start_block_number : ℕ
  pub keypers : List Address
  pub threshold : ℕ
  pub batch_span : ℕ
  pub batch_size_limit : ℕ
  pub transaction_size_limit : ℕ
  pub transaction_gas_limit : ℕ
  pub fee_receiver : Address
  pub target_address : Address
  pub target_function_selector : Bytes
  pub execution_timeout : ℕ

pub record CipherExecutionReceipt : Type 0 where
  pub executed : Bool
  pub executor : Address
  pub half_step : ℕ
  pub cipher_batch_hash : Bytes
  pub batch_hash : Bytes

pub record Authorization : Type 0 where
  pub half_step : ℕ
  pub batch_hash : Bytes
  pub signer_indices : List ℕ
  pub signatures : List Bytes

-- The loop of `KeyperIndex`, at index `i`.
keyper_index_from : ℕ → List Address → Address → Option ℕ
keyper_index_from i [] address = none
keyper_index_from i (k ∷ rest) address =
    if k == address then some i else keyper_index_from (i + 1) rest address

unfoldable pub keyper_index : BatchConfig → Address → Option ℕ
unfolding keyper_index_from
keyper_index bc address = keyper_index_from 0 (bc.keypers) address

unfoldable pub is_keyper : BatchConfig → Address → Bool
unfolding keyper_index
is_keyper bc address = is_some (keyper_index bc address)

unfoldable pub is_active : BatchConfig → Bool
is_active bc = ltb 0 (bc.batch_span)

unfoldable pub batch_start_block : BatchConfig → ℕ → Result Panic ℕ
batch_start_block bc batch_index =
    if ltb batch_index (bc.start_batch_index)
    then err bad_argument
    else ok
        (add64 (bc.start_block_number) (mul64 (batch_index - bc.start_batch_index) (bc.batch_span)))

unfoldable pub batch_end_block : BatchConfig → ℕ → Result Panic ℕ
unfolding batch_start_block
batch_end_block bc batch_index =
    batch_start_block bc batch_index >>= λ start. ok (add64 start (bc.batch_span))

unfoldable pub batch_index : BatchConfig → ℕ → Result Panic ℕ
batch_index bc block_number =
    if ltb block_number (bc.start_block_number)
    then err bad_argument
    else if bc.batch_span == 0
    then ok (bc.start_batch_index)
    else ok (add64 (bc.start_batch_index) ((block_number - bc.start_block_number) / bc.batch_span))

-- The contract at some block; `none` is a call that fails. A config comes without its keypers.
pub record ConfigContract : Type 0 where
  pub num_configs : Option ℕ
  pub configs : ℕ → Option BatchConfig
  pub config_num_keypers : ℕ → Option ℕ
  pub config_keypers : ℕ → ℕ → Option Address

pub data ConfigError : Type 0 where
  call_failed misconfigured : ConfigError

module _ (cc : ConfigContract) where
  -- The loop of `NextBatchIndex`, with `i` configs left.
  next_from : ℕ → ℕ → Result ConfigError ℕ
  next_from zero block_number = err misconfigured
  next_from (suc i) block_number = or_err (cc.configs i) call_failed >>= λ cfg.
      let earlier = next_from i block_number in
      if leb (cfg.start_block_number) block_number
      then ok (
          if cfg.batch_span == 0
          then cfg.start_batch_index
          else add64
              (add64 (cfg.start_batch_index)
                ((block_number - cfg.start_block_number) / cfg.batch_span))
              1)
      else earlier

  unfoldable pub next_batch_index : ℕ → Result ConfigError ℕ
  unfolding next_from
  next_batch_index block_number =
      or_err (cc.num_configs) call_failed >>= λ n. next_from n block_number

  -- The loop of `GetConfigKeypers`, from keyper `i` on, for `n` more.
  keypers_from : ℕ → ℕ → ℕ → Result ConfigError (List Address)
  keypers_from config_index i zero = ok []
  keypers_from config_index i (suc n) = do
    keyper ← or_err (cc.config_keypers config_index i) call_failed
    rest ← keypers_from config_index (i + 1) n
    ok (keyper ∷ rest)

  unfoldable pub get_config_keypers : ℕ → Result ConfigError (List Address)
  unfolding keypers_from
  get_config_keypers config_index =
      or_err (cc.config_num_keypers config_index) call_failed >>= keypers_from config_index 0

  unfoldable pub get_config_by_index : ℕ → Result ConfigError BatchConfig
  unfolding get_config_keypers
  get_config_by_index config_index = do
    config ← or_err (cc.configs config_index) call_failed
    keypers ← get_config_keypers config_index
    ok (record config { keypers = dedup_addresses keypers })

  -- The loop of `CurrentAndFutureConfigs`, with `i` configs left.
  current_from : ℕ → ℕ → List BatchConfig → Result ConfigError (List BatchConfig)
  unfolding get_config_by_index
  current_from zero block_number configs = ok configs
  current_from (suc i) block_number configs = get_config_by_index i >>= λ config.
      let more = current_from i block_number (config ∷ configs) in
      if leb (config.start_block_number) block_number then ok (config ∷ configs) else more

  unfoldable pub current_and_future_configs : ℕ → Result ConfigError (List BatchConfig)
  unfolding current_from
  current_and_future_configs block_number =
      or_err (cc.num_configs) call_failed >>= λ n. current_from n block_number []

-- `SignatureToContractFormat`, which panics on a signature of less than 65 bytes. A byte wraps.
signature_to_contract_format : Bytes → Result Panic Bytes
signature_to_contract_format sig =
    or_err (get_elem? sig 64) index_out_of_range >>= λ v. ok (set sig 64 ((v + 27) % 256))

unfoldable pub signatures_to_contract_format : List Bytes → Result Panic (List Bytes)
unfolding signature_to_contract_format
signatures_to_contract_format [] = ok []
signatures_to_contract_format (s ∷ rest) = do
  c ← signature_to_contract_format s
  cs ← signatures_to_contract_format rest
  ok (c ∷ cs)
