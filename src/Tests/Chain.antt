-- ===== src/Tests/Chain.antt =====
-- The chain of three keypers, from its genesis on.
use shielder.Base.{◌≡◌, ◌∷◌, ℕ, refl, none, some, List, [], list_beq, get, put, ok, nat_eq}
use shielder.Shmsg.{Bytes, CheckInMsg, MessageWithNonce}
use shielder.App.State.{App, new_shielder_app}
use shielder.App.State.Inv.{IsValid, new_shielder_app-IsValid}
use shielder.App.Powermap.{ValidatorUpdate}
use shielder.App.Deliver.{
  Response, success, error_response, nonce_used, already_checked_in, deliver_check_in,
}
use shielder.App.Transactions.{deliver_tx, decode_tx}
use shielder.App.Transactions.Valid.{Kept, deliver_tx_total}
use shielder.App.Blocks.{end_block, commit}
use shielder.App.Blocks.Genesis.{init_chain-IsValid}
use shielder.App.Chain.{Steps, chain_goes_on, replay_refused, check_in_lasts}
use shielder.App.Chain.Step.{delivered, committed}
use shielder.App.Chain.Steps.{here, next}
use shielder.Events.{check_in_event}
use shielder.Tests.Fixtures.{
  checked_in_app-IsValid, test_libraries, test_iteration, test_key, test_message, check_in_tx,
  test_request, genesis_app, checked_in_app, genesis_begins, genesis_app-IsValid,
}

abbrev check_in_response : Response test_libraries
check_in_response =
    success
      (check_in_event (record { height = 0; sender = 1; encryption_public_key = 8 ∷ [] }) ∷ [])

check_in_is_delivered :
    deliver_tx test_libraries genesis_app check_in_tx ≡ ok (checked_in_app, check_in_response)
unfolding deliver_tx decode_tx shielder.Encoding.decode_string shielder.Base.Tests.list_beq
    shielder.App.Nonces.check shielder.Base.get shielder.App.State.update_check_tx_members
    new_shielder_app shielder.App.Nonces.new_nonce_tracker shielder.App.Transactions.deliver_message
    deliver_check_in shielder.App.State.is_keyper_of_any shielder.Config.keyper_index
    shielder.App.Powermap.new_validator_pubkey shielder.Base.put shielder.App.Nonces.add
check_in_is_delivered = refl

abbrev message_one : MessageWithNonce
message_one = elim (test_message (0 ∷ [])) [
  | some m ↦ m
  | none ↦ record { msg = shielder.Shmsg.Message.missing; chain_id = []; random_nonce = 0 }
]

check_in_is_decoded : decode_tx test_libraries check_in_tx ≡ some (1, message_one)
unfolding decode_tx shielder.Encoding.decode_string
check_in_is_decoded = refl

deliver_tx_total_example :
    (app' : App) × (r : Response test_libraries) × (deliver_tx test_libraries genesis_app
        check_in_tx
      ≡ ok (app', r))
    × Kept genesis_app app'
deliver_tx_total_example =
    deliver_tx_total test_libraries test_iteration genesis_app check_in_tx genesis_app-IsValid

replay_refused_example :
    deliver_tx test_libraries (commit checked_in_app) check_in_tx
    ≡ ok (commit checked_in_app, error_response nonce_used)
replay_refused_example =
    replay_refused test_libraries test_iteration genesis_app checked_in_app (commit checked_in_app)
      check_in_tx 1 message_one check_in_response genesis_app-IsValid check_in_is_decoded refl
      check_in_is_delivered (next here (committed refl))

-- A check-in, and the commit of its block.
abbrev committed_app : App
committed_app = commit checked_in_app

check_in_and_commit : Steps test_libraries genesis_app committed_app
check_in_and_commit =
    next (next here (delivered check_in_tx check_in_response check_in_is_delivered))
      (committed refl)

chain_goes_on_example :
    ((tx : Bytes)
      → (b : App) × (r : Response test_libraries) × (deliver_tx test_libraries committed_app tx
          ≡ ok (b, r)))
    × ((height : ℕ)
        → (b : App) × (updates : List ValidatorUpdate) × (end_block committed_app height
            ≡ ok (b, updates)))
chain_goes_on_example =
    chain_goes_on test_libraries test_iteration test_request genesis_app committed_app
      genesis_begins check_in_and_commit

abbrev second_check_in : CheckInMsg
second_check_in = record { validator_public_key = test_key; encryption_public_key = [] }

key_is_stored : get 1 checked_in_app.identities ≡ some (record { ed25519_pubkey = test_key })
unfolding get
key_is_stored = refl

check_in_lasts_example :
    (get 1 committed_app.identities ≡ some (record { ed25519_pubkey = test_key }))
    × (deliver_check_in test_libraries committed_app second_check_in 1
        ≡ ok (committed_app, error_response already_checked_in))
check_in_lasts_example =
    check_in_lasts test_libraries test_iteration checked_in_app committed_app 1
      (record { ed25519_pubkey = test_key }) second_check_in checked_in_app-IsValid key_is_stored
      (next here (committed refl))

init_chain-IsValid_example : IsValid genesis_app × (genesis_app.chain_id ≡ test_request.chain_id)
init_chain-IsValid_example =
    init_chain-IsValid test_libraries new_shielder_app genesis_app test_request
      new_shielder_app-IsValid genesis_begins
