-- ===== src/Tests/Decider.antt =====
-- A keyper decides: keyper 0 of three, in a key generation with a commitment of keyper 1, and with batches to execute.
use shielder.Base.{
  ◌+◌, ◌≡◌, ◌∷◌, ℕ, refl, none, some, [], arith, replicate, get, Result, ok, err, nat_eq,
}
use shielder.Events
use shielder.Tests.Fixtures.{test_libraries}
use shielder.Tests.Keyper.{five_blocks}
use shielder.PureDkg.{dealing, new_pure_dkg}
use shielder.MainChain.{MainChain, new_main_chain, config_for_batch_index}
use shielder.Observe.Shielder.{Eon, Shielder, BatchData, new_shielder}
use shielder.Decide.{
  Libraries, KeyperConfig, Decider, Dkg, Batch, new_state, new_constant_phase_length,
}
use shielder.Decide.Dkgs.{handle_dkgs}
use shielder.Decide.Dkgs.Followed.{Each, IsContinued, handle_dkgs-Each}
use shielder.Decide.Epochs.{count_signatures, sync_batch}
use shielder.Decide.Epochs.Counted.{IsCounted, sync_batch-IsCounted}
use shielder.Decide.Execution.{maybe_execute_batch}
use shielder.Decide.Execution.Ahead.{Cautious, maybe_execute_batch-Cautious}

abbrev test_keyper_libraries : Libraries test_libraries
test_keyper_libraries = record {
  address_bytes = λ a. a ∷ [];
  encrypt = λ key bytes. bytes;
  decrypt = λ bytes. some bytes;
  keccak256 = λ bytes. replicate 32 0;
  sign = λ hash. some hash;
  random_polynomial = λ eon. some (3 ∷ 2 ∷ []);
  read_g2 = λ bytes. none;
  marshal_g1 = λ p. p ∷ [];
  shuffle = λ seed txs. txs;
}

abbrev test_config : KeyperConfig
test_config = record {
  address = 1;
  validator_public_key = replicate 32 3;
  encryption_public_key = 8 ∷ [];
  config_contract_address = 40;
  batcher_contract_address = 41;
  execution_staggering = 0;
  dkg_phase_length = 10;
}

abbrev eon_seven : Eon test_libraries
eon_seven = record {
  eon = 7;
  start_height = 20;
  start_event = record { height = 20; eon = 7; batch_index = 3 };
  commitments = record { height = 21; eon = 7; sender = 2; gammas = 4 ∷ 5 ∷ [] } ∷ [];
  poly_evals = [];
  accusations = [];
  apologies = [];
  epoch_secret_key_shares = [];
}

abbrev new_dkg : Dkg test_libraries
new_dkg = record {
  eon = 7;
  start_batch_index = 3;
  keypers = 1 ∷ 2 ∷ 3 ∷ [];
  pure = record (new_pure_dkg 7 3 2 0) { phase = dealing };
  outgoing_poly_eval_msgs = [];
  phase_length = new_constant_phase_length 10;
}

-- At the block behind the beginning of the eon; block 22 of the main chain is in batch 5.
abbrev test_decider : Decider test_libraries
test_decider = record {
  state = record new_state { dkgs = new_dkg ∷ []; pending_half_step = some 6 };
  shielder = record new_shielder { current_block = 21; eons = eon_seven ∷ [] };
  main_chain = record (new_main_chain 0) {
    current_block = 22;
    batch_configs = five_blocks ∷ [];
    num_execution_half_steps = 7;
  };
  actions = [];
  phase_length = new_constant_phase_length 10;
}

abbrev value_or {ℓ κ} : {E : Type ℓ} {A : Type κ} → Result E A → A → A
value_or (ok a) b = a
value_or (err e) b = b

abbrev generated : Decider test_libraries
generated = value_or (handle_dkgs test_keyper_libraries test_decider) test_decider

generated-eq : handle_dkgs test_keyper_libraries test_decider ≡ ok generated
unfolding handle_dkgs shielder.Decide.is_finalized new_pure_dkg shielder.Observe.Shielder.find_eon
    shielder.Base.Search.sort_search shielder.Decide.get_phase_at_height new_constant_phase_length
    shielder.Decide.Dkgs.sync_commitments shielder.Observe.Shielder.get_poly_commitments
    shielder.PureDkg.handle_poly_commitment_msg shielder.Decide.Dkgs.sync_poly_evals
    shielder.Observe.Shielder.get_poly_evals shielder.Decide.Dkgs.sync_accusations
    shielder.Observe.Shielder.get_accusations shielder.Decide.Dkgs.sync_apologies
    shielder.Observe.Shielder.get_apologies shielder.Decide.Dkgs.send_poly_evals
    shielder.Decide.Dkgs.sync_dkg_with_eon shielder.Observe.Shielder.find_eon_at
    shielder.Observe.Shielder.from_height shielder.Observe.Shielder.search_eon
    shielder.PureDkg.check_eon_and_phase new_state shielder.Medley.find_address_index
generated-eq = refl

handle_dkgs-Each_example : Each IsContinued (test_decider.state.dkgs) (generated.state.dkgs)
handle_dkgs-Each_example =
    handle_dkgs-Each test_keyper_libraries test_decider generated generated-eq

abbrev executed : Decider test_libraries
executed = value_or (maybe_execute_batch test_config test_decider) test_decider

executed-eq : maybe_execute_batch test_config test_decider ≡ ok executed
unfolding maybe_execute_batch shielder.MainChain.current_config shielder.Contract.is_active
    shielder.Contract.batch_index shielder.Decide.Execution.get_num_half_steps_to_execute
    config_for_batch_index shielder.Contract.batch_end_block shielder.Contract.is_keyper
    shielder.Decide.add_action shielder.Base.get new_state
executed-eq = refl

maybe_execute_batch-Cautious_example : Cautious test_config test_decider executed
maybe_execute_batch-Cautious_example =
    maybe_execute_batch-Cautious test_config test_decider executed executed-eq

abbrev signed_by : ℕ → Events.DecryptionSignature
signed_by k = record { height = 21; batch_index = 5; sender = k + 1; signature = k ∷ [] }

-- A signature of keyper 1 is counted; one of keyper 2 comes behind it.
abbrev counted_batch : Batch
counted_batch = record {
  batch_index = 5;
  decryption_signature_hash = 6 ∷ [];
  decrypted_transactions = (4 ∷ []) ∷ [];
  decrypted_batch_hash = 5 ∷ [];
  decryption_signature_index = 1;
  signature_count = 1;
}

abbrev signed_data : BatchData
signed_data = record { batch_index = 5; decryption_signatures = signed_by 0 ∷ signed_by 1 ∷ [] }

abbrev signing_decider : Decider test_libraries
signing_decider = record test_decider {
  shielder = record (test_decider.shielder) { batches = (5, signed_data) ∷ [] };
}

five_active : config_for_batch_index (signing_decider.main_chain) 5 ≡ ok (some five_blocks)
unfolding config_for_batch_index shielder.Contract.is_active
five_active = refl

one-IsCounted : IsCounted test_libraries counted_batch five_blocks (signed_by 0 ∷ [])
unfolding count_signatures shielder.Decide.Epochs.verify_signature shielder.Contract.is_keyper
one-IsCounted = record { within = omega arith; counted = refl }

there : get 5 (signing_decider.shielder.batches) ≡ some signed_data
unfolding get
there = refl

sync_batch-IsCounted_example :
    (after : Batch) × (sync_batch signing_decider counted_batch ≡ ok after)
    × (after.signature_count
        ≡ count_signatures test_libraries counted_batch five_blocks
            (signed_by 0 ∷ signed_by 1 ∷ []))
    × IsCounted test_libraries after five_blocks (signed_by 0 ∷ signed_by 1 ∷ [])
    × (sync_batch signing_decider after ≡ ok after)
sync_batch-IsCounted_example =
    sync_batch-IsCounted test_libraries five_blocks signing_decider counted_batch signed_data
      (signed_by 0 ∷ []) (signed_by 1 ∷ []) there five_active refl one-IsCounted (omega arith)
