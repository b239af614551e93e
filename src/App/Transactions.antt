-- ===== src/App/Transactions.antt =====
-- Transactions: the messages of the key generation, the dispatch, `DeliverTx` and `CheckTx` of
-- app/app.go, and the signatures of shmsg/encode.go.
pub mod Generations
pub mod Valid
use shielder.Base.{
  ◌∷◌, ◌++◌, ◌==◌, if◌then◌else◌, ℕ, Bool, false, not, Option, none, some, [], ltb, length, get,
  put, ok, err, drop, take, nat_eq, list_eq,
}
use shielder.Shmsg.{
  Bytes, Address, Message, PolyEvalMsg, PolyCommitmentMsg, AccusationMsg, ApologyMsg,
  EpochSecretKeyShareMsg, MessageWithNonce,
}
use shielder.Shmsg.Message.{
  batch_config, batch_config_started, check_in, eon_start_vote, decryption_signature, poly_eval,
  poly_commitment, accusation, apology, epoch_secret_key_share, missing,
}
use shielder.External.{External}
use shielder.Encoding.{decode_string}
use shielder.Events.{
  poly_eval_event, poly_commitment_event, accusation_event, apology_event,
  epoch_secret_key_share_event,
}
use shielder.App.State.{App}
use shielder.App.Nonces.{check, add}
use shielder.App.CheckTx.{add_tx}
use shielder.App.Dkg.{
  register_poly_eval_msg, register_poly_commitment_msg, register_accusation_msg,
  register_apology_msg,
}
use shielder.App.Messages.{
  parse_poly_eval_msg, parse_poly_commitment_msg, parse_accusation_msg, parse_apology_msg,
  parse_epoch_secret_key_share_msg,
}
use shielder.App.Deliver.{
  cannot_decode, wrong_chain_id, nonce_used, cannot_deliver, dkg_not_active, malformed,
  not_registered, success, Handled, refuse, deliver_batch_config, deliver_check_in,
  deliver_batch_config_started, deliver_eon_start_vote_msg, deliver_decryption_signature,
}

-- `crypto.SignatureLength`
abbrev pub signature_length : ℕ
signature_length = 65

-- The bytes of "\x19shmsg".
abbrev pub hash_prefix : Bytes
hash_prefix = 25 ∷ 115 ∷ 104 ∷ 109 ∷ 115 ∷ 103 ∷ []

module _ (x : External) where
  unfoldable pub handle_poly_eval_msg : App → PolyEvalMsg → Address → Handled x
  handle_poly_eval_msg app msg sender = elim (parse_poly_eval_msg x msg sender) [
    | err e ↦ refuse x app (malformed e)
    | ok app_msg ↦ elim (get app_msg.eon app.dkg_map) [
      | none ↦ refuse x app dkg_not_active
      | some dkg ↦ elim (register_poly_eval_msg dkg app_msg) [
        | err e ↦ refuse x app (not_registered e)
        | ok dkg' ↦ ok (
          record app { dkg_map = put app_msg.eon dkg' app.dkg_map },
          success (poly_eval_event app_msg ∷ []),
        )
      ]
    ]
  ]

  unfoldable pub handle_poly_commitment_msg : App → PolyCommitmentMsg → Address → Handled x
  handle_poly_commitment_msg app msg sender = elim (parse_poly_commitment_msg x msg sender) [
    | err e ↦ refuse x app (malformed e)
    | ok app_msg ↦ elim (get app_msg.eon app.dkg_map) [
      | none ↦ refuse x app dkg_not_active
      | some dkg ↦ elim (register_poly_commitment_msg dkg app_msg) [
        | err e ↦ refuse x app (not_registered e)
        | ok dkg' ↦ ok (
          record app { dkg_map = put app_msg.eon dkg' app.dkg_map },
          success (poly_commitment_event app_msg ∷ []),
        )
      ]
    ]
  ]

  unfoldable pub handle_accusation_msg : App → AccusationMsg → Address → Handled x
  handle_accusation_msg app msg sender = elim (parse_accusation_msg x msg sender) [
    | err e ↦ refuse x app (malformed e)
    | ok app_msg ↦ elim (get app_msg.eon app.dkg_map) [
      | none ↦ refuse x app dkg_not_active
      | some dkg ↦ elim (register_accusation_msg dkg app_msg) [
        | err e ↦ refuse x app (not_registered e)
        | ok dkg' ↦ ok (
          record app { dkg_map = put app_msg.eon dkg' app.dkg_map },
          success (accusation_event app_msg ∷ []),
        )
      ]
    ]
  ]

  unfoldable pub handle_apology_msg : App → ApologyMsg → Address → Handled x
  handle_apology_msg app msg sender = elim (parse_apology_msg x msg sender) [
    | err e ↦ refuse x app (malformed e)
    | ok app_msg ↦ elim (get app_msg.eon app.dkg_map) [
      | none ↦ refuse x app dkg_not_active
      | some dkg ↦ elim (register_apology_msg dkg app_msg) [
        | err e ↦ refuse x app (not_registered e)
        | ok dkg' ↦ ok (
          record app { dkg_map = put app_msg.eon dkg' app.dkg_map },
          success (apology_event app_msg ∷ []),
        )
      ]
    ]
  ]

  unfoldable pub handle_epoch_secret_key_share_msg :
      App → EpochSecretKeyShareMsg → Address → Handled x
  handle_epoch_secret_key_share_msg app msg sender =
      elim (parse_epoch_secret_key_share_msg x msg sender) [
        | err e ↦ refuse x app (malformed e)
        | ok app_msg ↦ ok (app, success (epoch_secret_key_share_event app_msg ∷ []))
      ]

  unfoldable pub deliver_message : App → Message → Address → Handled x
  deliver_message app (batch_config m) sender = deliver_batch_config x app m sender
  deliver_message app (batch_config_started i) sender = deliver_batch_config_started x app i sender
  deliver_message app (check_in m) sender = deliver_check_in x app m sender
  deliver_message app (eon_start_vote i) sender = deliver_eon_start_vote_msg x app i sender
  deliver_message app (decryption_signature i s) sender =
      deliver_decryption_signature x app i s sender
  deliver_message app (poly_eval m) sender = handle_poly_eval_msg app m sender
  deliver_message app (poly_commitment m) sender = handle_poly_commitment_msg app m sender
  deliver_message app (accusation m) sender = handle_accusation_msg app m sender
  deliver_message app (apology m) sender = handle_apology_msg app m sender
  deliver_message app (epoch_secret_key_share m) sender =
      handle_epoch_secret_key_share_msg app m sender
  deliver_message app missing sender = refuse x app cannot_deliver

  -- `GetSigner`; the signature comes first, and the rest is hashed behind the prefix.
  unfoldable pub get_signer : Bytes → Option Address
  get_signer signed =
      if ltb (length signed) signature_length
      then none
      else (x.recover_address (x.sha3_256 (hash_prefix ++ drop signature_length signed))
          (take signature_length signed))

  -- `GetMessage`, called behind `GetSigner`, so that the slice is within bounds.
  unfoldable pub get_message : Bytes → Option MessageWithNonce
  get_message signed = x.unmarshal_message (drop signature_length signed)

  unfoldable pub decode_tx : Bytes → Option (Address × MessageWithNonce)
  unfolding get_signer get_message
  decode_tx tx = elim (decode_string tx) [
    | none ↦ none
    | some signed ↦ elim (get_signer signed) [
      | none ↦ none
      | some signer ↦ elim (get_message signed) [ none ↦ none | some msg ↦ some (signer, msg) ]
    ]
  ]

  -- `DeliverTx` behind the decoding.
  unfoldable pub deliver_decoded : App → Address → MessageWithNonce → Handled x
  deliver_decoded app signer msg =
      if not (msg.chain_id == app.chain_id)
      then refuse x app wrong_chain_id
      else if not (check app.nonce_tracker signer msg.random_nonce)
      then refuse x app nonce_used
      else (deliver_message
          (record app { nonce_tracker = add app.nonce_tracker signer msg.random_nonce }) msg.msg
          signer)

  unfoldable pub deliver_tx : App → Bytes → Handled x
  unfolding deliver_decoded
  deliver_tx app tx = elim (decode_tx tx) [
    | none ↦ refuse x app cannot_decode
    | some (signer, msg) ↦ deliver_decoded app signer msg
  ]

  -- `CheckTx`: whether the response has code 0.
  unfoldable pub check_tx : App → Bytes → App × Bool
  check_tx app tx = elim (decode_tx tx) [
    | none ↦ (app, false)
    | some (signer, msg) ↦
        if not (msg.chain_id == app.chain_id)
        then (app, false)
        else if not (check app.nonce_tracker signer msg.random_nonce)
        then (app, false)
        else (let (s, accepted) = add_tx app.check_tx_state signer msg in
            (record app { check_tx_state = s }, accepted))
  ]
