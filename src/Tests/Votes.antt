-- ===== src/Tests/Votes.antt =====
-- Votes, the mempool's filter, nonces and validators.
use shielder.Base.{
  ◌+◌, ◌≤◌, ◌<◌, ◌≡◌, ◌⊎◌, ◌∷◌, ℕ, refl, true, false, none, some, [], arith, list_beq, get, put, ok,
  nat_eq,
}
use mathlib.Core.List.Permᴰ
use shielder.Shmsg.{MessageWithNonce}
use shielder.Shmsg.Message.{missing}
use shielder.Config.{BatchConfig}
use shielder.App.Nonces.{new_nonce_tracker, check, add}
use shielder.App.CheckTx.{
  CheckTxState, new_check_tx_state, reset, add_tx, tx_count, is_member, max_txs_per_block,
}
use shielder.App.CheckTx.Laws.{IsWithinLimit, reset-IsWithinLimit, add_tx-IsWithinLimit, add_tx_lem}
use shielder.App.Voting.{Voting, ConfigVoting, add_config_vote, config_outcome, outcome_index}
use shielder.App.Voting.Tally.{count_votes, count_votes-le-length, outcome_index_lem}
use shielder.App.Voting.Winner.{config_outcome_winner}
use shielder.App.Powermap.{ValidatorPubkey, pubkey_eq, Powermap, validator_updates}
use shielder.App.Powermap.Order.{KeysDiffer, validator_updates-perm}
use shielder.App.Blocks.{genesis_config}
use shielder.Tests.Fixtures.{test_libraries, test_iteration}

abbrev three_votes : Voting
three_votes = record { votes = (1, 0) ∷ (2, 1) ∷ (3, 0) ∷ [] }

outcome_index_lem_example :
    ((i : ℕ)
      → outcome_index test_libraries three_votes 2 ≡ some i
      → 2 ≤ count_votes i three_votes.votes)
    × (outcome_index test_libraries three_votes 2 ≡ none
        → (i : ℕ) → count_votes i three_votes.votes < 2)
outcome_index_lem_example =
    outcome_index_lem test_libraries test_iteration three_votes 2 (omega arith) (omega arith)
      (omega arith)

test_outcome : outcome_index test_libraries three_votes 2 ≡ some 0
unfolding outcome_index shielder.Base.put get
test_outcome = refl

abbrev test_config : BatchConfig
test_config = genesis_config (1 ∷ 2 ∷ 3 ∷ []) 2

abbrev one_vote : ConfigVoting
one_vote = record { voting = record { votes = (1, 0) ∷ [] }; candidates = test_config ∷ [] }

abbrev two_votes : ConfigVoting
two_votes = record {
  voting = record { votes = (1, 0) ∷ (2, 0) ∷ [] };
  candidates = test_config ∷ [];
}

second_vote : add_config_vote one_vote 2 test_config ≡ ok two_votes
unfolding add_config_vote get shielder.Base.Tests.list_beq shielder.Base.put
second_vote = refl

second_decides : config_outcome test_libraries two_votes 2 ≡ ok (some test_config)
unfolding config_outcome shielder.Base.put get
second_decides = refl

config_outcome_winner_example : test_config ≡ test_config
config_outcome_winner_example =
    config_outcome_winner test_libraries test_iteration one_vote two_votes 2 test_config test_config
      2 (omega arith) (omega arith) (omega arith)
      (λ i. omega (arith, count_votes-le-length i one_vote.voting.votes)) second_vote second_decides

abbrev one_tx : CheckTxState
one_tx =
    (add_tx (reset new_check_tx_state) 1
      (record { msg = missing; chain_id = []; random_nonce = 4 })).0

abbrev next_tx : MessageWithNonce
next_tx = record { msg = missing; chain_id = []; random_nonce = 5 }

one_tx-IsWithinLimit : IsWithinLimit one_tx
one_tx-IsWithinLimit =
    add_tx-IsWithinLimit (reset new_check_tx_state) 1 _ (reset-IsWithinLimit new_check_tx_state)

add_tx_lem_example :
    ((add_tx one_tx 1 next_tx).1 ≡ true
      → ((one_tx.members ≡ []) ⊎ (is_member one_tx 1 ≡ true))
        × (tx_count one_tx 1 < max_txs_per_block)
        × (check one_tx.nonce_tracker 1 next_tx.random_nonce ≡ true)
        × (tx_count (add_tx one_tx 1 next_tx).0 1 ≡ tx_count one_tx 1 + 1)
        × (check (add_tx one_tx 1 next_tx).0.nonce_tracker 1 next_tx.random_nonce ≡ false))
    × ((add_tx one_tx 1 next_tx).1 ≡ false → (add_tx one_tx 1 next_tx).0 ≡ one_tx)
add_tx_lem_example = add_tx_lem one_tx 1 next_tx one_tx-IsWithinLimit

test_add_tx : (add_tx one_tx 1 next_tx).1 ≡ true
unfolding add_tx reset new_check_tx_state get check new_nonce_tracker shielder.Base.put add
test_add_tx = refl

abbrev key_a : ValidatorPubkey
key_a = record { ed25519_pubkey = 3 ∷ [] }

abbrev key_b : ValidatorPubkey
key_b = record { ed25519_pubkey = 7 ∷ [] }

abbrev only_a : Powermap
only_a = (key_a, 10) ∷ []

abbrev only_b : Powermap
only_b = (key_b, 10) ∷ []

abbrev two_validators : Powermap
two_validators = (key_b, 10) ∷ (key_a, 10) ∷ []

two_validators-KeysDiffer : KeysDiffer two_validators
two_validators-KeysDiffer = ((λ e. cc, tt), (tt, tt))

validator_updates-perm_example :
    validator_updates two_validators ≡ validator_updates ((key_a, 10) ∷ (key_b, 10) ∷ [])
validator_updates-perm_example =
    validator_updates-perm two_validators ((key_a, 10) ∷ (key_b, 10) ∷ [])
      (Permᴰ.trans (Permᴰ.swap refl refl) (Permᴰ.refl _)) two_validators-KeysDiffer
