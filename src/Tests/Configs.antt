-- ===== src/Tests/Configs.antt =====
-- Configs, addresses and the key generation's messages.
use shielder.Base.{
  ◌≤◌, ◌<◌, ◌≡◌, ◌∷◌, refl, true, false, none, List, [], map, arith, length, replicate, contains,
  distinct, sign_bit, ok, err, insert, nat_eq, pair_eq,
}
use shielder.Shmsg.{Address, BatchConfigMsg}
use shielder.External.{External}
use shielder.Config.{
  BatchConfig, ensure_valid, batch_config_from_message, is_keyper, address_length,
}
use shielder.Config.Laws.{ensure_valid_huge, batch_config_from_message_lem}
use shielder.Medley.{ensure_unique_addresses}
use shielder.Observe.{find_batch_config_by_batch_index}
use shielder.Observe.Lookup.{find_batch_config_by_batch_index_lem}
use shielder.App.State.{get_config}
use shielder.Panic.{index_out_of_range}
use shielder.Events.{PolyEval, PolyCommitment, Accusation, Apology}
use shielder.App.Dkg.{
  DkgInstance, new_dkg_instance, register_poly_eval_msg, register_poly_commitment_msg,
  register_accusation_msg, register_apology_msg, close_submissions, close_accusations,
}
use shielder.App.Dkg.Laws.{is_ok}
use shielder.App.Dkg.Steps.{poly_eval_once, submissions_stay_closed, broadcasts_once}
use shielder.App.Dkg.Steps.Step.{accusations_end}
use shielder.App.Dkg.Steps.Steps.{here, next}
use shielder.App.Blocks.{genesis_config}
use shielder.Tests.Fixtures.{test_libraries}

abbrev test_config : BatchConfig
test_config = genesis_config (1 ∷ 2 ∷ 3 ∷ []) 2

abbrev huge_config : BatchConfig
huge_config = genesis_config (1 ∷ []) sign_bit

ensure_valid_huge_example : (ensure_valid huge_config ≡ none) × (1 < huge_config.threshold)
ensure_valid_huge_example =
    ensure_valid_huge huge_config (omega arith) (omega arith) (omega arith) (omega arith)

abbrev test_msg : BatchConfigMsg
test_msg = record {
  start_batch_index = 3;
  keypers = replicate 20 1 ∷ replicate 20 2 ∷ [];
  threshold = 2;
  config_contract_address = replicate 20 0;
  config_index = 1;
  started = false;
  validators_updated = false;
}

abbrev msg_config : BatchConfig
msg_config = record (genesis_config (map test_libraries.bytes_to_address test_msg.keypers) 2) {
  start_batch_index = 3;
  config_index = 1;
}

msg_is_read : batch_config_from_message test_libraries test_msg ≡ ok msg_config
unfolding batch_config_from_message ensure_unique_addresses
msg_is_read = refl

batch_config_from_message_lem_example :
    (distinct msg_config.keypers ≡ true)
    × (msg_config.start_batch_index ≡ 3)
    × (msg_config.threshold ≡ 2)
    × (msg_config.config_index ≡ 1)
    × (msg_config.started ≡ false)
    × (length test_msg.config_contract_address ≡ address_length)
batch_config_from_message_lem_example =
    batch_config_from_message_lem test_libraries test_msg msg_config msg_is_read

abbrev receiver_two : List Address
receiver_two = 2 ∷ []

abbrev receiver_three : List Address
receiver_three = 3 ∷ []

abbrev eval_for : Address → PolyEval
eval_for receiver = record {
  height = 0;
  sender = 1;
  eon = 1;
  receivers = receiver ∷ [];
  encrypted_evals = [];
}

abbrev fresh_dkg : DkgInstance
fresh_dkg = new_dkg_instance test_config 1

abbrev seen_dkg : DkgInstance
seen_dkg = record fresh_dkg { poly_evals_seen = (1, 2) ∷ [] }

first_eval : register_poly_eval_msg fresh_dkg (eval_for 2) ≡ ok seen_dkg
unfolding register_poly_eval_msg new_dkg_instance is_keyper shielder.Base.insert
first_eval = refl

abbrev later_dkg : DkgInstance
later_dkg = record (close_accusations seen_dkg) { poly_evals_seen = (1, 2) ∷ (1, 3) ∷ [] }

second_eval : register_poly_eval_msg (close_accusations seen_dkg) (eval_for 3) ≡ ok later_dkg
unfolding register_poly_eval_msg close_accusations new_dkg_instance is_keyper insert
second_eval = refl

poly_eval_once_example : contains receiver_three 2 ≡ false
poly_eval_once_example =
    poly_eval_once fresh_dkg seen_dkg (close_accusations seen_dkg) later_dkg (eval_for 2)
      (eval_for 3) 2 first_eval (next here (accusations_end refl)) second_eval refl refl

submissions_stay_closed_example :
    ((m : PolyEval) → is_ok (register_poly_eval_msg (close_submissions seen_dkg) m) ≡ false)
    × ((x : External) (m : PolyCommitment x)
        → is_ok (register_poly_commitment_msg (close_submissions seen_dkg) m) ≡ false)
submissions_stay_closed_example = submissions_stay_closed seen_dkg (close_submissions seen_dkg) here

abbrev accused_dkg : DkgInstance
accused_dkg = record fresh_dkg { accusations_seen = 1 ∷ [] }

broadcasts_once_example :
    ((x : External) (m n : PolyCommitment x)
      → register_poly_commitment_msg fresh_dkg m ≡ ok accused_dkg
      → n.sender ≡ m.sender
      → is_ok (register_poly_commitment_msg (close_accusations accused_dkg) n) ≡ false)
    × ((m n : Accusation)
        → register_accusation_msg fresh_dkg m ≡ ok accused_dkg
        → n.sender ≡ m.sender
        → is_ok (register_accusation_msg (close_accusations accused_dkg) n) ≡ false)
    × ((m n : Apology)
        → register_apology_msg fresh_dkg m ≡ ok accused_dkg
        → n.sender ≡ m.sender
        → is_ok (register_apology_msg (close_accusations accused_dkg) n) ≡ false)
broadcasts_once_example =
    broadcasts_once fresh_dkg accused_dkg (close_accusations accused_dkg)
      (next here (accusations_end refl))

abbrev later_config : BatchConfig
later_config = record test_config { start_batch_index = 9 }

find_batch_config_by_batch_index_lem_example :
    (9 ≤ 4
      → find_batch_config_by_batch_index (test_config ∷ later_config ∷ []) 4
        ≡ get_config (test_config ∷ later_config ∷ []) 4)
    × (4 < 9
        → find_batch_config_by_batch_index (test_config ∷ later_config ∷ []) 4
          ≡ err index_out_of_range)
find_batch_config_by_batch_index_lem_example =
    find_batch_config_by_batch_index_lem (test_config ∷ []) later_config 4

-- The app finds the first of these configs.
app_finds_first : get_config (test_config ∷ later_config ∷ []) 4 ≡ ok test_config
unfolding get_config
app_finds_first = refl
