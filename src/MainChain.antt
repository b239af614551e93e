-- ===== src/MainChain.antt =====
-- What a keyper observes of the main chain (keyper/observe/mainchain.go). The answers of the Ethereum
-- node are a parameter.
pub mod Sync
use shielder.Base.{
  ◌∷◌, if◌then◌else◌, ◌>>=◌, ℕ, suc, Bool, false, not, Option, none, some, List, [], leb, get_elem?,
  replicate, Map, Result, ok, or_err, drop, any,
}
use shielder.Shmsg.{Bytes, Address}
use shielder.Panic.{Panic, illegal_configs, index_out_of_range}
use shielder.Contract.{BatchConfig, CipherExecutionReceipt, is_active, is_keyper}

pub record Batch : Type 0 where
  pub batch_index : ℕ
  pub encrypted_batch_hash : Bytes
  pub encrypted_transactions : List Bytes
  pub plain_transactions : List Bytes
  pub plain_batch_hash : Bytes

-- `common.Hash{}`
abbrev pub zero_hash : Bytes
zero_hash = replicate 32 0

-- `&Batch{BatchIndex: batchIndex}`
unfoldable pub new_batch : ℕ → Batch
new_batch i = record {
  batch_index = i;
  encrypted_batch_hash = zero_hash;
  encrypted_transactions = [];
  plain_transactions = [];
  plain_batch_hash = zero_hash;
}

pub record Deposit : Type 0 where
  pub account : Address
  pub slashed : Bool
  pub amount : Option ℕ
  pub withdrawal_delay_blocks : ℕ
  pub withdrawal_requested_block : ℕ

pub record Accusation : Type 0 where
  pub executor : Address
  pub accuser : Address
  pub appealed : Bool
  pub half_step : ℕ
  pub block_number : ℕ

-- Of `NodeSyncProgress` only whether it is there.
pub record MainChain : Type 0 where
  pub follow_distance : ℕ
  pub current_block : ℕ
  pub node_is_syncing : Bool
  pub batch_configs : List BatchConfig
  pub batches : Map ℕ Batch
  pub num_execution_half_steps : ℕ
  pub cipher_execution_receipts : Map ℕ CipherExecutionReceipt
  pub deposits : Map Address Deposit
  pub accusations : Map ℕ Accusation

unfoldable pub new_main_chain : ℕ → MainChain
new_main_chain follow_distance = record {
  follow_distance = follow_distance;
  current_block = 0;
  node_is_syncing = false;
  batch_configs = [];
  batches = [];
  num_execution_half_steps = 0;
  cipher_execution_receipts = [];
  deposits = [];
  accusations = [];
}

-- The index of the last element for which the test holds: a loop from the end of the slice.
unfoldable pub last_index {ℓ} : {A : Type ℓ} → (A → Bool) → List A → Option ℕ
last_index p [] = none
last_index p (a ∷ rest) = elim (last_index p rest) [
  | some i ↦ some (suc i)
  | none ↦ if p a then some 0 else none
]

unfoldable pub active_config_index : MainChain → ℕ → Result Panic ℕ
unfolding last_index
active_config_index m blocknum =
    or_err (last_index (λ c. leb (c.start_block_number) blocknum) (m.batch_configs)) illegal_configs

unfoldable pub config_at : MainChain → ℕ → Result Panic BatchConfig
config_at m i = or_err (get_elem? (m.batch_configs) i) index_out_of_range

unfoldable pub active_config : MainChain → ℕ → Result Panic BatchConfig
unfolding active_config_index config_at
active_config m blocknum = active_config_index m blocknum >>= config_at m

unfoldable pub current_config : MainChain → Result Panic BatchConfig
unfolding active_config
current_config m = active_config m (m.current_block)

unfoldable pub active_configs : MainChain → Result Panic (List BatchConfig)
unfolding active_config_index
active_configs m = active_config_index m (m.current_block) >>= λ i. ok (drop i (m.batch_configs))

unfoldable pub is_active_keyper : MainChain → Address → Result Panic Bool
unfolding active_configs
is_active_keyper m addr = active_configs m >>= λ configs. ok (any (λ c. is_keyper c addr) configs)

-- An inactive config is `none`.
unfoldable pub config_index_for_batch_index : MainChain → ℕ → Result Panic (Option ℕ)
unfolding last_index config_at
config_index_for_batch_index m b = do
  i ← or_err (last_index (λ c. leb (c.start_batch_index) b) (m.batch_configs)) illegal_configs
  config ← config_at m i
  ok (if is_active config then some i else none)

unfoldable pub config_for_batch_index : MainChain → ℕ → Result Panic (Option BatchConfig)
unfolding config_index_for_batch_index config_at
config_for_batch_index m b =
    config_index_for_batch_index m b
    >>= elim [ none ↦ ok none | some i ↦ config_at m i >>= λ config. ok (some config) ]

unfoldable pub is_synced : MainChain → Bool
is_synced m = not (m.node_is_syncing)
