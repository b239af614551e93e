-- ===== src/Events/Make.antt =====
-- The rest of the events as tendermint's, and `MakeEvent`, which reads them all
-- (keyper/shutterevents/events.go).
pub mod Roundtrip
use shielder.Base.{
  ◌∷◌, ◌==◌, if◌then◌else◌, ◌>>=◌, ◌>>◌, ℕ, [], Result, ok, err, or_err, nat_eq, string_eq,
}
use shielder.External.{External}
use shielder.Events.{
  CheckIn, DecryptionSignature, PolyCommitment, PolyEval, EpochSecretKeyShare, Event,
  batch_config_event, eon_started_event, check_in_event, decryption_signature_event,
  poly_eval_event, poly_commitment_event, accusation_event, apology_event,
  epoch_secret_key_share_event,
}
use shielder.Encoding.{decode_string, encode_to_string}
use shielder.Events.Marshal.{
  Codec, DecodeError, bad_bytes, bad_type, decode_uint64, decode_addresses,
  decode_epoch_secret_key_share, decode_byte_sequence, encode_pubkey, decode_pubkey, decode_address,
  decode_gammas,
}
use shielder.Events.Abci.{
  AbciEvent, new_uint_pair, plain_pair, expect_attributes, value_at, batch_config_abci_event,
  eon_started_abci_event, make_eon_started, new_address_pair, new_addresses_pair,
  new_byte_sequence_pair, new_gammas, new_epoch_secret_key_share, accusation_abci_event,
  make_accusation, apology_abci_event, make_apology, make_batch_config,
}

module _ {x : External} (codec : Codec x) where
  unfoldable pub check_in_abci_event : CheckIn x → AbciEvent
  check_in_abci_event msg = record {
    event_type = "shielder.check-in";
    attributes =
        new_address_pair codec "Sender" (msg.sender)
        ∷ plain_pair "EncryptionPublicKey" (encode_pubkey codec (msg.encryption_public_key))
        ∷ [];
  }

  unfoldable pub make_check_in : AbciEvent → ℕ → Result DecodeError (CheckIn x)
  make_check_in ev height = expect_attributes ev ("Sender" ∷ "EncryptionPublicKey" ∷ []) >> (do
    sender ← decode_address codec (value_at ev 0)
    public_key ← decode_pubkey codec (value_at ev 1)
    ok (record { height = height; sender = sender; encryption_public_key = public_key }))

  unfoldable pub decryption_signature_abci_event : DecryptionSignature → AbciEvent
  decryption_signature_abci_event msg = record {
    event_type = "shielder.decryption-signature";
    attributes =
        new_uint_pair "BatchIndex" (msg.batch_index)
        ∷ new_address_pair codec "Sender" (msg.sender)
        ∷ plain_pair "Signature" (encode_to_string (msg.signature))
        ∷ [];
  }

  unfoldable pub make_decryption_signature : AbciEvent → ℕ → Result DecodeError DecryptionSignature
  make_decryption_signature ev height =
      expect_attributes ev ("BatchIndex" ∷ "Sender" ∷ "Signature" ∷ []) >> (do
        batch_index ← decode_uint64 (value_at ev 0)
        sender ← decode_address codec (value_at ev 1)
        signature ← or_err (decode_string (value_at ev 2)) bad_bytes
        ok (record {
          height = height;
          batch_index = batch_index;
          sender = sender;
          signature = signature;
        }))

  unfoldable pub poly_commitment_abci_event : PolyCommitment x → AbciEvent
  poly_commitment_abci_event msg = record {
    event_type = "shielder.poly-commitment-registered";
    attributes =
        new_address_pair codec "Sender" (msg.sender)
        ∷ new_uint_pair "Eon" (msg.eon)
        ∷ new_gammas codec "Gammas" (msg.gammas)
        ∷ [];
  }

  unfoldable pub make_poly_commitment : AbciEvent → ℕ → Result DecodeError (PolyCommitment x)
  make_poly_commitment ev height = expect_attributes ev ("Sender" ∷ "Eon" ∷ "Gammas" ∷ []) >> (do
    sender ← decode_address codec (value_at ev 0)
    eon ← decode_uint64 (value_at ev 1)
    gammas ← decode_gammas x (value_at ev 2)
    ok (record { height = height; sender = sender; eon = eon; gammas = gammas }))

  unfoldable pub poly_eval_abci_event : PolyEval → AbciEvent
  poly_eval_abci_event msg = record {
    event_type = "shielder.poly-eval-registered";
    attributes =
        new_address_pair codec "Sender" (msg.sender)
        ∷ new_uint_pair "Eon" (msg.eon)
        ∷ new_addresses_pair codec "Receivers" (msg.receivers)
        ∷ new_byte_sequence_pair codec "EncryptedEvals" (msg.encrypted_evals)
        ∷ [];
  }

  unfoldable pub make_poly_eval : AbciEvent → ℕ → Result DecodeError PolyEval
  make_poly_eval ev height =
      expect_attributes ev ("Sender" ∷ "Eon" ∷ "Receivers" ∷ "EncryptedEvals" ∷ []) >> (do
        sender ← decode_address codec (value_at ev 0)
        eon ← decode_uint64 (value_at ev 1)
        receivers ← decode_addresses codec (value_at ev 2)
        encrypted_evals ← decode_byte_sequence codec (value_at ev 3)
        ok (record {
          height = height;
          sender = sender;
          eon = eon;
          receivers = receivers;
          encrypted_evals = encrypted_evals;
        }))

  unfoldable pub epoch_secret_key_share_abci_event : EpochSecretKeyShare x → AbciEvent
  epoch_secret_key_share_abci_event msg = record {
    event_type = "shielder.epoch-secret-key-share";
    attributes =
        new_address_pair codec "Sender" (msg.sender)
        ∷ new_uint_pair "Eon" (msg.eon)
        ∷ new_uint_pair "Epoch" (msg.epoch)
        ∷ new_epoch_secret_key_share codec "Share" (msg.share)
        ∷ [];
  }

  unfoldable pub make_epoch_secret_key_share :
      AbciEvent → ℕ → Result DecodeError (EpochSecretKeyShare x)
  make_epoch_secret_key_share ev height =
      expect_attributes ev ("Sender" ∷ "Eon" ∷ "Epoch" ∷ "Share" ∷ []) >> (do
        sender ← decode_address codec (value_at ev 0)
        eon ← decode_uint64 (value_at ev 1)
        epoch ← decode_uint64 (value_at ev 2)
        share ← decode_epoch_secret_key_share codec (value_at ev 3)
        ok (record { height = height; sender = sender; eon = eon; epoch = epoch; share = share }))

  -- `MakeABCIEvent` of whichever event.
  unfoldable pub make_abci_event : Event x → AbciEvent
  make_abci_event (batch_config_event e) = batch_config_abci_event codec e
  make_abci_event (eon_started_event e) = eon_started_abci_event e
  make_abci_event (check_in_event e) = check_in_abci_event e
  make_abci_event (decryption_signature_event e) = decryption_signature_abci_event e
  make_abci_event (poly_eval_event e) = poly_eval_abci_event e
  make_abci_event (poly_commitment_event e) = poly_commitment_abci_event e
  make_abci_event (accusation_event e) = accusation_abci_event codec e
  make_abci_event (apology_event e) = apology_abci_event codec e
  make_abci_event (epoch_secret_key_share_event e) = epoch_secret_key_share_abci_event e

  unfoldable pub make_event : AbciEvent → ℕ → Result DecodeError (Event x)
  make_event ev height =
      if ev.event_type == "shielder.check-in"
      then (make_check_in ev height >>= λ e. ok (check_in_event e))
      else if ev.event_type == "shielder.batch-config"
      then (make_batch_config codec ev height >>= λ e. ok (batch_config_event e))
      else if ev.event_type == "shielder.decryption-signature"
      then (make_decryption_signature ev height >>= λ e. ok (decryption_signature_event e))
      else if ev.event_type == "shielder.eon-started"
      then (make_eon_started ev height >>= λ e. ok (eon_started_event e))
      else if ev.event_type == "shielder.poly-commitment-registered"
      then (make_poly_commitment ev height >>= λ e. ok (poly_commitment_event e))
      else if ev.event_type == "shielder.poly-eval-registered"
      then (make_poly_eval ev height >>= λ e. ok (poly_eval_event e))
      else if ev.event_type == "shielder.accusation-registered"
      then (make_accusation codec ev height >>= λ e. ok (accusation_event e))
      else if ev.event_type == "shielder.apology-registered"
      then (make_apology codec ev height >>= λ e. ok (apology_event e))
      else if ev.event_type == "shielder.epoch-secret-key-share"
      then (make_epoch_secret_key_share ev height >>= λ e. ok (epoch_secret_key_share_event e))
      else err bad_type
