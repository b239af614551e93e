-- ===== src/Decide/All.antt =====
-- One step of a keyper's decider (keyper/decide.go).
use shielder.Base.{
  ◌-◌, ◌&&◌, ◌||◌, if◌then◌else◌, ◌>>=◌, ℕ, Bool, true, false, not, Option, none, some, ltb, leb,
  length, get_elem?, add64, Result, ok,
}
use shielder.Panic.{Panic}
use shielder.External.{External}
use shielder.Shmsg.New.{new_batch_config, new_check_in}
use shielder.Contract
use shielder.MainChain
use shielder.Observe.Shielder.{is_checked_in, is_keyper_of_any, is_synced}
use shielder.PureDkg.{index}
use shielder.Decide.{Libraries, KeyperConfig, Decider, send_message}
use shielder.Decide.Dkgs.{maybe_start_dkg, handle_dkgs}
use shielder.Decide.Epochs.{handle_epoch_kg, handle_decryption_signatures}
use shielder.Decide.Execution.{maybe_execute_batch, maybe_accuse}
use shielder.Decide.Appeals.{maybe_appeal}

module _ {x : External} (lib : Libraries x) (kc : KeyperConfig) where
  unfoldable pub should_send_check_in : Decider x → Bool
  should_send_check_in d =
      not (d.state.check_in_message_sent)
      && not (is_checked_in (d.shielder) (kc.address))
      && is_keyper_of_any (d.shielder) (kc.address)

  unfoldable pub maybe_send_check_in : Decider x → Decider x
  unfolding should_send_check_in
  maybe_send_check_in d =
      let sent =
        send_message d (new_check_in (kc.validator_public_key) (kc.encryption_public_key)) in
      if should_send_check_in d
      then record sent { state = record (d.state) { check_in_message_sent = true } }
      else d

  unfoldable pub send_batch_config : Decider x → ℕ → Contract.BatchConfig → Decider x
  send_batch_config d config_index config = send_message d (
      new_batch_config lib.address_bytes (config.start_batch_index) (config.keypers)
        (config.threshold) (kc.config_contract_address) config_index false false)

  -- The index of the config behind the last one; without configs the chain is not bootstrapped.
  unfoldable pub next_config_index : Decider x → Option ℕ
  next_config_index d =
      let configs = d.shielder.batch_configs in
      elim (get_elem? configs (length configs - 1)) [
        | none ↦ none
        | some last ↦ some (add64 1 last.config_index)
      ]

  unfoldable pub maybe_send_batch_config : Decider x → Result Panic (Decider x)
  unfolding next_config_index send_batch_config
  maybe_send_batch_config d = elim (next_config_index d) [
    | none ↦ ok d
    | some i ↦
        if leb i (d.state.last_sent_batch_config_index)
          || not (ltb i (length (d.main_chain.batch_configs)))
        then ok d
        else (index (d.main_chain.batch_configs) i >>= λ config.
            let d' = send_batch_config d i config in
            ok (record d' { state = record (d'.state) { last_sent_batch_config_index = i } }))
  ]

  unfoldable pub decide : Decider x → Result Panic (Decider x)
  unfolding maybe_send_check_in maybe_send_batch_config
  decide d =
      if not (is_synced (d.shielder))
        || not (MainChain.is_synced (d.main_chain))
        || not (is_keyper_of_any (d.shielder) (kc.address))
      then ok d
      else (do
        configured ← maybe_send_batch_config (maybe_send_check_in d)
        started ← maybe_start_dkg kc configured
        generated ← handle_dkgs lib started
        published ← handle_epoch_kg lib kc generated
        signed ← handle_decryption_signatures published
        executed ← maybe_execute_batch kc signed
        appealed ← maybe_appeal executed
        accused ← maybe_accuse kc appealed
        ok (record accused {
          state = record (accused.state) { sync_height = add64 (accused.shielder.current_block) 1 };
        }))
