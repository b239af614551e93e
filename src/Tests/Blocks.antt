-- ===== src/Tests/Blocks.antt =====
-- Blocks of the chain of three keypers.
use shielder.Base.{
  ◌≡◌, ◌∷◌, ◌++◌, refl, true, none, some, List, [], list_beq, HasKeysOnce, get, put, ok, err,
  nat_eq,
}
use shielder.Config.{BatchConfig}
use shielder.App.State.{App, last_config, update_check_tx_members}
use shielder.App.Powermap.{pubkey_eq, ValidatorPubkey, ValidatorUpdate}
use shielder.App.Powermap.Diff.{power_of}
use shielder.App.Powermap.Sent.{sent}
use shielder.App.Blocks.{end_block, genesis_config, start_last_config}
use shielder.App.Blocks.Valid.{end_block_total}
use shielder.App.Blocks.Updates.{end_block-sent}
use shielder.App.Deliver.Post.{Delivered}
use shielder.Tests.Fixtures.{test_key, genesis_app, checked_in_app, checked_in_app-IsValid}

-- Keypers 1 and 2, of whom one decides, from batch 3 on.
abbrev second_config : BatchConfig
second_config = record (genesis_config (1 ∷ 2 ∷ []) 1) { start_batch_index = 3; config_index = 1 }

-- The second config has started, and one of its keypers has checked in.
abbrev renewed_app : App
renewed_app = record checked_in_app {
  configs = genesis_config (1 ∷ 2 ∷ 3 ∷ []) 2 ∷ record second_config { started = true } ∷ [];
}

abbrev block_end : App × List ValidatorUpdate
block_end = elim (end_block renewed_app 4) [ ok r ↦ r | err _ ↦ (renewed_app, []) ]

abbrev test_pubkey : ValidatorPubkey
test_pubkey = record { ed25519_pubkey = test_key }

block_ends : end_block renewed_app 4 ≡ ok (block_end.0, block_end.1)
unfolding end_block last_config
block_ends = refl

-- The key of keyper 1 becomes a validator.
end_block-sent_example :
    (HasKeysOnce block_end.0.validators)
    × (power_of test_pubkey block_end.0.validators ≡ (elim (sent test_pubkey block_end.1) [
      | some p ↦ p
      | none ↦ power_of test_pubkey renewed_app.validators
    ]))
unfolding update_check_tx_members shielder.App.State.new_shielder_app
end_block-sent_example =
    end_block-sent renewed_app block_end.0 4 block_end.1 test_pubkey refl refl block_ends

test_power : power_of test_pubkey block_end.0.validators ≡ 10
unfolding end_block shielder.App.Blocks.end_block_with last_config shielder.App.State.find_last
    start_last_config shielder.App.State.config_before_last shielder.App.Blocks.update_last_config
    shielder.App.Blocks.count_checked_in_keypers shielder.App.Blocks.current_validators
    shielder.App.Powermap.add_power shielder.App.Powermap.diff_powermaps shielder.Base.get
    shielder.Base.put shielder.Base.Tests.list_beq update_check_tx_members
    shielder.App.State.new_shielder_app
test_power = refl

test_sent : sent test_pubkey block_end.1 ≡ some 10
unfolding end_block shielder.App.Blocks.end_block_with last_config shielder.App.State.find_last
    start_last_config shielder.App.State.config_before_last shielder.App.Blocks.update_last_config
    shielder.App.Blocks.count_checked_in_keypers shielder.App.Blocks.current_validators
    shielder.App.Powermap.add_power shielder.App.Powermap.diff_powermaps
    shielder.App.Powermap.validator_updates shielder.Base.get shielder.Base.put
    shielder.Base.Tests.list_beq update_check_tx_members shielder.App.State.new_shielder_app
test_sent = refl

end_block_total_example :
    (app' : App) × (updates : List ValidatorUpdate) × (end_block checked_in_app 4
      ≡ ok (app', updates))
    × Delivered checked_in_app app'
end_block_total_example = end_block_total checked_in_app 4 checked_in_app-IsValid

-- Two keypers have voted that the genesis config has started.
abbrev voted_app : App
voted_app = record genesis_app { started_votes = 1 ∷ 2 ∷ [] }

abbrev added_app : App
added_app =
    update_check_tx_members (record voted_app { configs = voted_app.configs ++ second_config ∷ [] })
