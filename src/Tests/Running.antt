-- ===== src/Tests/Running.antt =====
-- A message and a transaction are run: the message is sent, then the transaction, and the keyper starts
-- again while the transaction is in flight.
use shielder.Base.{
  ◌≡◌, ◌∷◌, refl, [], arith, list_beq, replicate, get, put, delete, ok, nat_eq, list_eq,
}
use shielder.Shmsg.Message.{eon_start_vote}
use shielder.Tests.Fixtures.{seven}
use shielder.Fx.{Action, send_shielder_message, skip_cipher_batch}
use shielder.Fx.Pending.{
  new_pending_actions, add_actions, put_actions, set_main_chain_tx_hash, get_main_chain_tx_hash,
  remove_action, get_action,
}
use shielder.Fx.Run.{
  RunEnv, new_run_env, run_actions, load, finish_message, send_main_chain_tx, schedule_action, Step,
  Run,
}
use shielder.Fx.Run.Removed.{IsWaiting}
use shielder.Fx.Run.Waiting.{Run-IsWaiting}

abbrev vote : Action seven
vote = send_shielder_message (eon_start_vote 4)

abbrev both_waiting : RunEnv seven
both_waiting = record {
  pending_actions = record {
    action_map = (0, vote) ∷ (1, skip_cipher_batch 3) ∷ [];
    main_chain_tx_hashes = [];
    current_id = 2;
  };
  shuttermint_messages = 0 ∷ [];
  main_chain_txs = 1 ∷ [];
  in_flight_main_chain_txs = [];
}

both_run : run_actions new_run_env 0 (vote ∷ skip_cipher_batch 3 ∷ []) ≡ ok both_waiting
unfolding run_actions new_run_env new_pending_actions add_actions put_actions schedule_action
    get_action get_main_chain_tx_hash get put shielder.Base.Tests.list_beq
both_run = refl

abbrev one_in_flight : RunEnv seven
one_in_flight = send_main_chain_tx (finish_message both_waiting 0 []) 1 (replicate 32 5) []

abbrev loaded : RunEnv seven
loaded = record {
  pending_actions = record {
    action_map = (1, skip_cipher_batch 3) ∷ [];
    main_chain_tx_hashes = (1, replicate 32 5) ∷ [];
    current_id = 2;
  };
  shuttermint_messages = [];
  main_chain_txs = [];
  in_flight_main_chain_txs = 1 ∷ [];
}

loads : load (one_in_flight.pending_actions) ≡ ok loaded
unfolding load shielder.Fx.Pending.sorted_ids send_main_chain_tx set_main_chain_tx_hash
    finish_message remove_action shielder.Base.delete get_action get shielder.Base.Tests.list_beq
    get_main_chain_tx_hash put
loads = refl

long_run : Run new_run_env loaded
unfolding finish_message new_run_env new_pending_actions shielder.Base.Tests.list_beq
long_run =
    Run.next
      (Run.next
        (Run.next
          (Run.next Run.here
            (Step.ran 0 (vote ∷ skip_cipher_batch 3 ∷ []) both_waiting both_run (omega arith)))
          (Step.message_done 0 [] refl))
        (Step.tx_sent 1 (replicate 32 5) [] refl refl))
      (Step.restarted loaded loads)

Run-IsWaiting_example : IsWaiting loaded
Run-IsWaiting_example = Run-IsWaiting long_run
