-- ===== src/MainChain/Sync.antt =====
-- Fetching the state of the main chain up to a block (keyper/observe/mainchain.go).
use shielder.Base.{
  ◌+◌, ◌-◌, ◌%◌, ◌∷◌, ◌++◌, ◌==◌, if◌then◌else◌, ◌>>=◌, ℕ, zero, suc, Bool, true, false, Option,
  none, some, List, [], length, Map, get_or_else, get, put, add64, Result, ok, err, or_err, nat_eq,
}
use shielder.Shmsg.{Bytes, Address}
use shielder.Contract.{BatchConfig, CipherExecutionReceipt, ConfigContract, get_config_by_index}
use shielder.MainChain.{Batch, new_batch, Deposit, Accusation, MainChain}

-- The events of the contracts (contract/binding.go).
pub record TransactionAdded : Type 0 where
  pub batch_index : ℕ
  pub transaction_type : ℕ
  pub transaction : Bytes
  pub batch_hash : Bytes

pub record DepositChanged : Type 0 where
  pub account : Address
  pub amount : ℕ
  pub withdrawal_delay_blocks : ℕ
  pub withdrawal_requested_block : ℕ
  pub slashed : Bool

pub record Accused : Type 0 where
  pub half_step : ℕ
  pub executor : Address
  pub accuser : Address
  pub block_number : ℕ

pub record Appealed : Type 0 where
  pub half_step : ℕ
  pub executor : Address

-- The node: calls at a block, and events from a block to another. `none` is a call that fails.
pub record Caller : Type 0 where
  pub is_syncing : Option Bool
  pub latest_block : Option ℕ
  pub config_contract : ℕ → ConfigContract
  pub num_execution_half_steps : ℕ → Option ℕ
  pub get_receipt : ℕ → ℕ → Option CipherExecutionReceipt
  pub filter_transaction_added : ℕ → ℕ → Option (List TransactionAdded)
  pub filter_deposit_changed : ℕ → ℕ → Option (List DepositChanged)
  pub filter_accused : ℕ → ℕ → Option (List Accused)
  pub filter_appealed : ℕ → ℕ → Option (List Appealed)

pub data SyncError : Type 0 where
  call_failed appeal_without_accusation unknown_transaction_type : SyncError

-- The loop of `syncConfigs`, from `i` on, for `n` more configs.
configs_from : ConfigContract → ℕ → ℕ → Option (List BatchConfig)
configs_from cc i zero = some []
configs_from cc i (suc n) = elim (get_config_by_index cc i) [
  | err e ↦ none
  | ok config ↦ elim (configs_from cc (i + 1) n) [ none ↦ none | some rest ↦ some (config ∷ rest) ]
]

unfoldable pub sync_configs : ConfigContract → MainChain → Result SyncError MainChain
unfolding configs_from
sync_configs cc m = do
  n ← or_err (cc.num_configs) call_failed
  let old = length (m.batch_configs)
  added ← or_err (configs_from cc old (n - old)) call_failed
  ok (record m { batch_configs = m.batch_configs ++ added })

-- `addTransaction`, which panics on an unknown type.
unfoldable pub add_transaction : MainChain → TransactionAdded → Result SyncError MainChain
add_transaction m event =
    let batch = get_or_else (get event.batch_index (m.batches)) (new_batch event.batch_index) in
    let cipher : Batch = record batch {
      encrypted_transactions = batch.encrypted_transactions ++ event.transaction ∷ [];
      encrypted_batch_hash = event.batch_hash;
    } in
    let plain : Batch = record batch {
      plain_transactions = batch.plain_transactions ++ event.transaction ∷ [];
      plain_batch_hash = event.batch_hash;
    } in
    if event.transaction_type == 0
    then ok (record m { batches = put event.batch_index cipher (m.batches) })
    else if event.transaction_type == 1
    then ok (record m { batches = put event.batch_index plain (m.batches) })
    else err unknown_transaction_type

unfoldable pub add_transactions : MainChain → List TransactionAdded → Result SyncError MainChain
unfolding add_transaction
add_transactions m [] = ok m
add_transactions m (event ∷ rest) = add_transaction m event >>= λ m'. add_transactions m' rest

unfoldable pub sync_batches : Caller → ℕ → ℕ → MainChain → Result SyncError MainChain
unfolding add_transactions
sync_batches caller start end m =
    or_err (caller.filter_transaction_added start end) call_failed >>= add_transactions m

-- The loop of `syncExecutionState`, from `half_step` on, for `n` more: the even ones have receipts.
receipts_from :
    Caller
    → ℕ
    → ℕ
    → ℕ
    → Map ℕ CipherExecutionReceipt
    → Result SyncError (Map ℕ CipherExecutionReceipt)
receipts_from caller block half_step zero receipts = ok receipts
receipts_from caller block half_step (suc n) receipts = elim (half_step % 2 == 0) [
  | false ↦ receipts_from caller block (half_step + 1) n receipts
  | true ↦ or_err (caller.get_receipt block half_step) call_failed >>= λ receipt.
      receipts_from caller block (half_step + 1) n (put receipt.half_step receipt receipts)
]

unfoldable pub sync_execution_state : Caller → ℕ → MainChain → Result SyncError MainChain
unfolding receipts_from
sync_execution_state caller block m = do
  n ← or_err (caller.num_execution_half_steps block) call_failed
  let last = m.num_execution_half_steps
  receipts ← receipts_from caller block last (n - last) (m.cipher_execution_receipts)
  ok (record m { cipher_execution_receipts = receipts; num_execution_half_steps = n })

-- `GetDeposit`
unfoldable pub get_deposit : Map Address Deposit → Address → Deposit
get_deposit deposits account = get_or_else (get account deposits) (record {
  account = account;
  slashed = false;
  amount = none;
  withdrawal_delay_blocks = 0;
  withdrawal_requested_block = 0;
})

-- The loop of `syncDeposits`.
change_deposits : Map Address Deposit → List DepositChanged → Map Address Deposit
unfolding get_deposit
change_deposits deposits [] = deposits
change_deposits deposits (ev ∷ rest) =
    let deposit : Deposit = record (get_deposit deposits ev.account) {
      amount = some ev.amount;
      withdrawal_delay_blocks = ev.withdrawal_delay_blocks;
      withdrawal_requested_block = ev.withdrawal_requested_block;
      slashed = ev.slashed;
    } in
    change_deposits (put ev.account deposit deposits) rest

unfoldable pub sync_deposits : Caller → ℕ → ℕ → MainChain → Result SyncError MainChain
unfolding change_deposits
sync_deposits caller start end m =
    or_err (caller.filter_deposit_changed start end) call_failed >>= λ events.
    ok (record m { deposits = change_deposits (m.deposits) events })

-- The loops of `syncSlashings`.
unfoldable pub accuse : Map ℕ Accusation → List Accused → Map ℕ Accusation
accuse accusations [] = accusations
accuse accusations (ev ∷ rest) =
    let accusation : Accusation = record {
      executor = ev.executor;
      accuser = ev.accuser;
      appealed = false;
      half_step = ev.half_step;
      block_number = ev.block_number;
    } in
    accuse (put ev.half_step accusation accusations) rest

unfoldable pub appeal : Map ℕ Accusation → List Appealed → Result SyncError (Map ℕ Accusation)
appeal accusations [] = ok accusations
appeal accusations (ev ∷ rest) =
    or_err (get ev.half_step accusations) appeal_without_accusation >>= λ accusation.
    appeal (put ev.half_step (record accusation { appealed = true }) accusations) rest

unfoldable pub sync_slashings : Caller → ℕ → ℕ → MainChain → Result SyncError MainChain
unfolding accuse appeal
sync_slashings caller start end m = do
  accused ← or_err (caller.filter_accused start end) call_failed
  appealed ← or_err (caller.filter_appealed start end) call_failed
  accusations ← appeal (accuse (m.accusations) accused) appealed
  ok (record m { accusations = accusations })

-- The rest of `SyncToHead`, once there is a new block.
sync_until : Caller → ℕ → Bool → MainChain → Result SyncError MainChain
unfolding sync_configs sync_batches sync_execution_state sync_deposits sync_slashings
sync_until caller until is_syncing old = do
  let start = add64 (old.current_block) 1
  with_configs ← sync_configs (caller.config_contract until) old
  with_batches ← sync_batches caller start until with_configs
  with_execution ← sync_execution_state caller until with_batches
  with_deposits ← sync_deposits caller start until with_execution
  m ← sync_slashings caller start until with_deposits
  ok (record m { current_block = until; node_is_syncing = is_syncing })

-- `SyncToHead`; a chain that is shorter than the follow distance is synced until block 0.
unfoldable pub sync_to_head : Caller → MainChain → Result SyncError MainChain
unfolding sync_until
sync_to_head caller m = do
  is_syncing ← or_err (caller.is_syncing) call_failed
  latest ← or_err (caller.latest_block) call_failed
  (if latest == m.current_block
      then ok m
      else sync_until caller (latest - m.follow_distance) is_syncing m)
