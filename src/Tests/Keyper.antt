-- ===== src/Tests/Keyper.antt =====
-- A keyper that observes the chain, and whose loop stops and starts again.
use shielder.Base.{
  ◌+◌, ◌-◌, ◌*◌, ◌≤◌, ◌≡◌, ◌≢◌, ◌↔◌, ◌∷◌, ◌==◌, if◌then◌else◌, ℕ, zero, suc, refl, inl, inr, false,
  Option, none, some, List, [], arith, Bool-cases, length, get_elem?, replicate, All, put, ok, drop,
  take, nat_eq,
}
use shielder.Events
use shielder.Events.{eon_started_event}
use shielder.Tests.Fixtures.{test_libraries, seven}
use shielder.Contract.{BatchConfig, batch_index}
use shielder.Contract.Blocks.{Covers, batch_index_iff}
use shielder.Shcrypto.Encryption.{EncryptedMessage}
use shielder.Shcrypto.Encoding.{marshal, unmarshal}
use shielder.Shcrypto.Encoding.Roundtrip.{unmarshal-marshal}
use shielder.Observe.Shielder.{Shielder, new_shielder, find_eon, apply_event}
use shielder.Observe.Eons.{eon_numbered}
use shielder.Observe.Applied.{Observed, find_eon-eon_numbered}
use shielder.Observe.Fetch.{Tx, Client, apply_txs, sync_to_height}
use shielder.Observe.Fetch.Pages.{blocks, IsHonest, sync_to_height-blocks}
use shielder.Fx.Pending.{add_actions, put_actions}
use shielder.Keyper.{
  added, Keyper, to_run, waiting, new_keyper, decide_and_save, run_actions, restart, Step, Run,
}
use shielder.Keyper.Restarts.{actions_added_once}

-- A config from block 10 and batch 3 on, with batches of 5 blocks.
abbrev pub five_blocks : BatchConfig
five_blocks = record {
  start_batch_index = 3;
  start_block_number = 10;
  keypers = 1 ∷ 2 ∷ 3 ∷ [];
  threshold = 2;
  batch_span = 5;
  batch_size_limit = 100;
  transaction_size_limit = 100;
  transaction_gas_limit = 100;
  fee_receiver = 8;
  target_address = 9;
  target_function_selector = 1 ∷ 2 ∷ 3 ∷ 4 ∷ [];
  execution_timeout = 6;
}

batch_index_iff_example : (batch_index five_blocks 22 ≡ ok 5) ↔ Covers five_blocks 5 22
batch_index_iff_example =
    batch_index_iff five_blocks 5 (omega arith) (omega arith) (omega arith) (omega arith) 22
      (omega arith)

abbrev two_block_message : EncryptedMessage seven
two_block_message = record {
  c1 = 4;
  c2 = replicate 32 1;
  c3 = replicate 32 2 ∷ replicate 32 3 ∷ [];
}

abbrev read_number : List ℕ → Option (ℕ × List ℕ)
read_number [] = none
read_number (p ∷ rest) = some (p, rest)

unmarshal-marshal_example :
    unmarshal seven read_number (marshal seven two_block_message) ≡ ok two_block_message
unmarshal-marshal_example =
    unmarshal-marshal seven read_number (λ p rest. refl) two_block_message refl (refl, (refl, tt))

abbrev eon_five : Events.EonStarted
eon_five = record { height = 3; eon = 5; batch_index = 1 }

abbrev observed_five : Shielder test_libraries
observed_five = apply_event new_shielder (eon_started_event eon_five)

find_eon-eon_numbered_example : find_eon observed_five 5 ≡ eon_numbered (observed_five.eons) 5
find_eon-eon_numbered_example =
    find_eon-eon_numbered 5 (Observed.applied (eon_started_event eon_five) Observed.nothing)

-- Block 3 starts an eon.
abbrev one_eon : ℕ → List (Tx test_libraries)
one_eon h = if h == 3 then (some (eon_started_event eon_five) ∷ []) ∷ [] else []

abbrev paging_node : Client test_libraries
paging_node = record {
  tx_search = λ first last page size.
      let found = blocks one_eon first (last + 1 - first) in
      some
        (record { total_count = length found; txs = take size (drop ((page - 1) * size) found) });
  last_commit_height = some 9;
  catching_up = some false;
}

paging_node-IsHonest : IsHonest paging_node one_eon
paging_node-IsHonest = record {
  answers = λ start n p h.
      let count : start + n - 1 + 1 - start ≡ n = omega (arith, h) in
      let before : suc p - 1 ≡ p = omega arith in rw (count, before) refl;
}

one_each : (start n : ℕ) → length (blocks one_eon start n) ≤ n
one_each start zero = omega arith
one_each start (suc n) = elim (Bool-cases (start == 3)) [
  | inl here ↦ rw here (omega (arith, one_each (start + 1) n))
  | inr other ↦ rw other (omega (arith, one_each (start + 1) n))
]

sync_to_height-blocks_example :
    sync_to_height paging_node 5 1 new_shielder 4
    ≡ ok (record (apply_txs new_shielder (blocks one_eon 0 5)) {
      current_block = 4;
      last_committed_height = 9;
      node_catching_up = some false;
    })
unfolding new_shielder
sync_to_height-blocks_example =
    sync_to_height-blocks paging_node one_eon paging_node-IsHonest 5 (omega arith)
      (λ start n h. omega (arith, h, one_each start n)) 1 5 9 false new_shielder (omega arith)
      (omega arith) (omega arith) (omega arith) refl refl

-- Two actions are decided and added; the keyper stops before it counts them, and starts again.
abbrev with_two : Keyper ℕ
with_two = record new_keyper { stage = to_run; actions = 7 ∷ 8 ∷ []; saved_actions = 7 ∷ 8 ∷ [] }

abbrev added_two : Keyper ℕ
added_two = record with_two {
  stage = added;
  pending = record { current_id = 2; main_chain_tx_hashes = []; action_map = (0, 7) ∷ (1, 8) ∷ [] };
}

two_decided : decide_and_save new_keyper (7 ∷ 8 ∷ []) ≡ ok with_two
unfolding decide_and_save new_keyper
two_decided = refl

two_added : run_actions with_two ≡ ok added_two
unfolding run_actions new_keyper add_actions put_actions shielder.Fx.Pending.new_pending_actions
    shielder.Base.put
two_added = refl

two_again : Run (restart added_two) (7 ∷ 8 ∷ [])
unfolding new_keyper
two_again =
    Run.next
      (Run.next
        (Run.next Run.start (Step.decided (7 ∷ 8 ∷ []) with_two refl two_decided (omega arith)))
        (Step.ran added_two refl two_added))
      Step.restarted

actions_added_once_example :
    All (λ p. get_elem? (7 ∷ 8 ∷ []) p.0 ≡ some p.1) ((restart added_two).pending.action_map)
    × ((restart added_two).stage ≢ to_run → (restart added_two).pending.current_id ≡ 2)
    × ((restart added_two).stage ≡ to_run
        → (k : Keyper ℕ) × (run_actions (restart added_two) ≡ ok k))
    × ((restart added_two).stage ≡ waiting
        → (actions : List ℕ)
        → (k : Keyper ℕ) × (decide_and_save (restart added_two) actions ≡ ok k))
actions_added_once_example = actions_added_once two_again
