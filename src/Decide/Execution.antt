-- ===== src/Decide/Execution.antt =====
-- When a keyper executes a batch on the main chain, accuses an executor, or appeals against an
-- accusation (keyper/decide.go).
pub mod Ahead
use shielder.Base.{
  ◌+◌, ◌-◌, ◌/◌, ◌%◌, ◌&&◌, ◌||◌, ◌==◌, if◌then◌else◌, ◌>>=◌, ℕ, zero, suc, not, Option, none, some,
  ltb, leb, length, is_some, get_or_else, has, get, add64, sub64, Result, ok, err, or_err, mul64,
  nat_eq, list_eq,
}
use shielder.Panic.{Panic, fatal, division_by_zero}
use shielder.External.{External}
use shielder.PureDkg.Phases.{range}
use shielder.Contract.{
  BatchConfig, keyper_index, is_keyper, is_active, batch_end_block, batch_index,
}
use shielder.MainChain.{new_batch, current_config, config_for_batch_index}
use shielder.Fx
use shielder.Fx.{Action, execute_cipher_batch, execute_plain_batch, skip_cipher_batch}
use shielder.Decide.{fold, KeyperConfig, max_parallel_half_steps, Decider, add_action}

unfoldable pub get_num_half_steps_to_execute : ℕ → ℕ → ℕ
get_num_half_steps_to_execute next batch =
    if leb (mul64 batch 2) next
    then 0
    else if leb (mul64 batch 2 - next) max_parallel_half_steps
    then mul64 batch 2 - next
    else max_parallel_half_steps

-- A pending half step that is behind the next one is forgotten.
unfoldable pub still_pending : Option ℕ → ℕ → Option ℕ
still_pending none next = none
still_pending (some p) next = if ltb p next then none else some p

module _ (kc : KeyperConfig) where
  -- `executionDelay`. The divisor of no keypers is -1; the place is then a division by zero.
  unfoldable pub execution_delay : BatchConfig → ℕ → Result Panic ℕ
  execution_delay config half_step =
      let n = length (config.keypers) in
      let divisor = sub64 n 1 in
      let max_staggering = if divisor == 0 then 0 else config.execution_timeout / mul64 2 divisor in
      let staggering =
        if leb max_staggering (kc.execution_staggering)
        then max_staggering
        else kc.execution_staggering in
      let place = add64 half_step (get_or_else (keyper_index config (kc.address)) 0) % n in
      if n == 0 then err division_by_zero else ok (mul64 place staggering)

  module _ {x : External} where
    -- `executeCipherBatch`
    unfoldable pub cipher_batch_action :
        Decider x → ℕ → BatchConfig → Result Panic (Option (Action x.curve))
    cipher_batch_action d b config =
        let batch = get_or_else (get b (d.main_chain.batches)) (new_batch b) in
        or_err (keyper_index config (kc.address)) fatal >>= λ i.
        ok (elim (get b (d.state.batches)) [
          | none ↦ none
          | some st ↦
              if ltb 0 (length (st.decrypted_transactions))
                && ltb (st.signature_count) (config.threshold)
              then none
              else some (
                  execute_cipher_batch (record {
                    batch_index = b;
                    cipher_batch_hash = batch.encrypted_batch_hash;
                    transactions = st.decrypted_transactions;
                    keyper_index = i;
                    transaction_gas_limit = config.transaction_gas_limit;
                  }))
        ])

    -- `executePlainBatch`
    unfoldable pub plain_batch_action : Decider x → ℕ → BatchConfig → Action x.curve
    plain_batch_action d b config =
        let batch = get_or_else (get b (d.main_chain.batches)) (new_batch b) in
        execute_plain_batch (record {
          batch_index = b;
          transactions = batch.plain_transactions;
          transaction_gas_limit = config.transaction_gas_limit;
        })

    -- The tests of `maybeExecuteHalfStep`, with the config of the batch and the delay.
    execute_with : Decider x → ℕ → BatchConfig → ℕ → ℕ → Result Panic (Option (Action x.curve))
    unfolding cipher_batch_action plain_batch_action
    execute_with d half_step config delay end =
        let b = half_step / 2 in
        let now = d.main_chain.current_block in
        let timeout = add64 end (config.execution_timeout) in
        let is_cipher = half_step % 2 == 0 in
        if is_cipher && leb timeout now
        then ok (if leb (add64 timeout delay) now then some (skip_cipher_batch b) else none)
        else if not (is_keyper config (kc.address))
        then ok none
        else if leb (add64 end delay) now
        then (if is_cipher
            then cipher_batch_action d b config
            else ok (some (plain_batch_action d b config)))
        else ok none

    unfoldable pub maybe_execute_half_step : Decider x → ℕ → Result Panic (Option (Action x.curve))
    unfolding execution_delay execute_with
    maybe_execute_half_step d half_step =
        let b = half_step / 2 in
        config_for_batch_index (d.main_chain) b >>= elim [
          | none ↦ ok none
          | some config ↦ do
            delay ← execution_delay config half_step
            end ← batch_end_block config b
            execute_with d half_step config delay end
        ]

    -- The loop of `maybeExecuteBatch`, over that many half steps.
    unfoldable pub execute_from : Decider x → ℕ → ℕ → Result Panic (Decider x)
    unfolding maybe_execute_half_step
    execute_from d half_step zero = ok d
    execute_from d half_step (suc n) = maybe_execute_half_step d half_step >>= elim [
      | none ↦ ok d
      | some action ↦
          let d' = add_action d action in
          execute_from
            (record d' { state = record (d'.state) { pending_half_step = some half_step } })
            (half_step + 1) n
    ]

    unfoldable pub maybe_execute_batch : Decider x → Result Panic (Decider x)
    unfolding execute_from still_pending
    maybe_execute_batch d = current_config (d.main_chain) >>= λ config.
        let next = d.main_chain.num_execution_half_steps in
        let pending = still_pending (d.state.pending_half_step) next in
        let d' = record d { state = record (d.state) { pending_half_step = pending } } in
        if not (is_active config)
        then ok d
        else (batch_index config (d.main_chain.current_block) >>= λ b.
            if is_some pending
            then ok d'
            else execute_from d' next (get_num_half_steps_to_execute next b))

    -- The body of the loop of `maybeAccuse`.
    unfoldable pub accuse_executor : Decider x → ℕ → Result Panic (Decider x)
    accuse_executor d half_step =
        let b = half_step / 2 in
        if not (half_step % 2 == 0)
        then ok d
        else (elim (get half_step (d.main_chain.cipher_execution_receipts)) [
          | none ↦ ok d
          | some receipt ↦ elim (get b (d.state.batches)) [
            | none ↦ ok d
            | some st ↦
                if st.decrypted_batch_hash == receipt.batch_hash
                  || has half_step (d.main_chain.accusations)
                then ok d
                else (config_for_batch_index (d.main_chain) b >>= elim [
                  | none ↦ ok d
                  | some config ↦ ok (
                      add_action d (
                        Fx.accuse (record {
                          half_step = half_step;
                          keyper_index = get_or_else (keyper_index config (kc.address)) 0;
                        })))
                ])
          ]
        ])

    unfoldable pub maybe_accuse : Decider x → Result Panic (Decider x)
    unfolding accuse_executor
    maybe_accuse d =
        let checked = d.state.half_steps_checked in
        let n = d.main_chain.num_execution_half_steps in
        fold accuse_executor d (range checked (n - checked)) >>= λ d'.
        ok (record d' { state = record (d'.state) { half_steps_checked = n } })
