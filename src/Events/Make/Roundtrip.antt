-- ===== src/Events/Make/Roundtrip.antt =====
-- An event that the app emits is read by the keypers as it was (events.go).
use shielder.Base.{◌<◌, ◌≡◌, ◌∷◌, ℕ, refl, false, List, [], map, arith, length, All, word_mod, ok}
use shielder.Shmsg.New.{int_bytes}
use shielder.External.{External}
use shielder.Config.{BatchConfig}
use shielder.Shcrypto.Padding.Blocks.{IsByte}
use shielder.Encoding.Roundtrip.{decode_string-encode_to_string}
use shielder.Events
use shielder.Events.{
  Event, batch_config_event, eon_started_event, check_in_event, decryption_signature_event,
  poly_eval_event, poly_commitment_event, accusation_event, apology_event,
  epoch_secret_key_share_event,
}
use shielder.Events.Marshal.{Codec, encode_gammas, decode_gammas}
use shielder.Events.Marshal.Numbers.{set_bytes-int_bytes, int_bytes-IsByte}
use shielder.Events.Marshal.Roundtrip.{
  CodecLaw, IsAddress, decode-encode_uint64, decode-encode_address, decode-encode_addresses,
  decode-encode_byte_sequence, decode-encode_pubkey, decode-encode_epoch_secret_key_share,
  decode-encode_gammas,
}
use shielder.Events.Abci.{
  new_uint_pair, plain_pair, expect_attributes, batch_config_abci_event, eon_started_abci_event,
  make_eon_started, new_address_pair, new_addresses_pair, new_byte_sequence_pair, new_gammas,
  new_epoch_secret_key_share, accusation_abci_event, make_accusation, apology_abci_event,
  make_apology, make_batch_config,
}
use shielder.Events.Make.{
  check_in_abci_event, make_check_in, decryption_signature_abci_event, make_decryption_signature,
  poly_commitment_abci_event, make_poly_commitment, poly_eval_abci_event, make_poly_eval,
  epoch_secret_key_share_abci_event, make_epoch_secret_key_share, make_abci_event, make_event,
}

module _ {x : External} (codec : Codec x) where
  -- The numbers are words, the addresses of 20 bytes, and the bytes are bytes; the gammas are not none.
  abbrev pub IsSendable : Event x → Type 0
  IsSendable (batch_config_event e) =
      (e.start_batch_index < word_mod)
      × (e.threshold < word_mod)
      × (e.config_index < word_mod)
      × All IsAddress e.keypers
  IsSendable (eon_started_event e) = (e.eon < word_mod) × (e.batch_index < word_mod)
  IsSendable (check_in_event e) =
      IsAddress e.sender × All IsByte (codec.export_pubkey e.encryption_public_key)
  IsSendable (decryption_signature_event e) =
      (e.batch_index < word_mod) × IsAddress e.sender × All IsByte e.signature
  IsSendable (poly_eval_event e) =
      IsAddress e.sender
      × (e.eon < word_mod)
      × All IsAddress e.receivers
      × All (All IsByte) e.encrypted_evals
  IsSendable (poly_commitment_event e) =
      IsAddress e.sender
      × (e.eon < word_mod)
      × (0 < length e.gammas)
      × All (λ g. All IsByte (x.curve.marshal_g2 g)) e.gammas
  IsSendable (accusation_event e) =
      IsAddress e.sender × (e.eon < word_mod) × All IsAddress e.accused
  IsSendable (apology_event e) = IsAddress e.sender × (e.eon < word_mod) × All IsAddress e.accusers
  IsSendable (epoch_secret_key_share_event e) =
      IsAddress e.sender
      × (e.eon < word_mod)
      × (e.epoch < word_mod)
      × All IsByte (codec.marshal_g1 e.share)

  -- The event as it is read at a height: of a config, what is not sent has its zero value.
  abbrev pub read_at : ℕ → Event x → Event x
  read_at height (batch_config_event e) = batch_config_event (record e {
    height = height;
    config_contract_address = 0;
    started = false;
    validators_updated = false;
  })
  read_at height (eon_started_event e) = eon_started_event (record e { height = height })
  read_at height (check_in_event e) = check_in_event (record e { height = height })
  read_at height (decryption_signature_event e) =
      decryption_signature_event (record e { height = height })
  read_at height (poly_eval_event e) = poly_eval_event (record e { height = height })
  read_at height (poly_commitment_event e) = poly_commitment_event (record e { height = height })
  read_at height (accusation_event e) = accusation_event (record e { height = height })
  read_at height (apology_event e) = apology_event (record e { height = height })
  read_at height (epoch_secret_key_share_event e) =
      epoch_secret_key_share_event (record e { height = height })

  module _ (law : CodecLaw codec) (height : ℕ) where
    batch_config_read :
        (e : BatchConfig)
        → IsSendable (batch_config_event e)
        → make_batch_config codec (batch_config_abci_event codec e) height
          ≡ ok (record e {
            height = height;
            config_contract_address = 0;
            started = false;
            validators_updated = false;
          })
    unfolding batch_config_abci_event make_batch_config expect_attributes new_uint_pair plain_pair
    batch_config_read e (n, t, c, xs) =
        rw (decode-encode_uint64 e.start_batch_index n, make_batch_config)
          (rw (decode-encode_uint64 e.threshold t) (
            rw (decode-encode_addresses codec law e.keypers xs)
              (rw (decode-encode_uint64 e.config_index c) (refl))))

    eon_started_read :
        (e : Events.EonStarted)
        → IsSendable (eon_started_event e)
        → make_eon_started (eon_started_abci_event e) height ≡ ok (record e { height = height })
    unfolding eon_started_abci_event make_eon_started expect_attributes new_uint_pair
    eon_started_read e (n, b) =
        rw (decode-encode_uint64 e.eon n, make_eon_started)
          (rw (decode-encode_uint64 e.batch_index b) (refl))

    check_in_read :
        (e : Events.CheckIn x)
        → IsSendable (check_in_event e)
        → make_check_in codec (check_in_abci_event codec e) height
          ≡ ok (record e { height = height })
    unfolding check_in_abci_event make_check_in expect_attributes plain_pair new_address_pair
    check_in_read e (s, k) =
        rw (decode-encode_address codec law e.sender s, make_check_in)
          (rw (decode-encode_pubkey codec law e.encryption_public_key k) (refl))

    decryption_signature_read :
        (e : Events.DecryptionSignature)
        → IsSendable (decryption_signature_event e)
        → make_decryption_signature codec (decryption_signature_abci_event codec e) height
          ≡ ok (record e { height = height })
    unfolding decryption_signature_abci_event make_decryption_signature expect_attributes
        new_uint_pair plain_pair new_address_pair
    decryption_signature_read e (n, s, bs) =
        rw (decode-encode_uint64 e.batch_index n, make_decryption_signature)
          (rw (decode-encode_address codec law e.sender s)
            (rw (decode_string-encode_to_string e.signature bs) (refl)))

    poly_eval_read :
        (e : Events.PolyEval)
        → IsSendable (poly_eval_event e)
        → make_poly_eval codec (poly_eval_abci_event codec e) height
          ≡ ok (record e { height = height })
    unfolding poly_eval_abci_event make_poly_eval expect_attributes new_uint_pair plain_pair
        new_address_pair new_addresses_pair new_byte_sequence_pair
    poly_eval_read e (s, n, xs, bs) =
        rw (decode-encode_address codec law e.sender s, make_poly_eval)
          (rw (decode-encode_uint64 e.eon n) (
            rw (decode-encode_addresses codec law e.receivers xs)
              (rw (decode-encode_byte_sequence codec law e.encrypted_evals bs) (refl))))

    accusation_read :
        (e : Events.Accusation)
        → IsSendable (accusation_event e)
        → make_accusation codec (accusation_abci_event codec e) height
          ≡ ok (record e { height = height })
    unfolding accusation_abci_event make_accusation expect_attributes new_uint_pair plain_pair
        new_address_pair new_addresses_pair
    accusation_read e (s, n, xs) =
        rw (decode-encode_address codec law e.sender s, make_accusation)
          (rw (decode-encode_uint64 e.eon n)
            (rw (decode-encode_addresses codec law e.accused xs) (refl)))

    apology_read :
        (e : Events.Apology)
        → IsSendable (apology_event e)
        → make_apology codec (apology_abci_event codec e) height ≡ ok (record e { height = height })
    unfolding apology_abci_event make_apology expect_attributes new_uint_pair plain_pair
        new_address_pair new_addresses_pair new_byte_sequence_pair
    apology_read e (s, n, xs) =
        rw (decode-encode_address codec law e.sender s, make_apology)
          (rw (decode-encode_uint64 e.eon n) (
            rw (decode-encode_addresses codec law e.accusers xs) (
              rw
                (decode-encode_byte_sequence codec law (map int_bytes e.poly_eval)
                  (int_bytes-IsByte e.poly_eval))
                (rw (set_bytes-int_bytes e.poly_eval) (refl)))))

    epoch_secret_key_share_read :
        (e : Events.EpochSecretKeyShare x)
        → IsSendable (epoch_secret_key_share_event e)
        → make_epoch_secret_key_share codec (epoch_secret_key_share_abci_event codec e) height
          ≡ ok (record e { height = height })
    unfolding epoch_secret_key_share_abci_event make_epoch_secret_key_share expect_attributes
        new_uint_pair plain_pair new_address_pair new_epoch_secret_key_share
    epoch_secret_key_share_read e (s, n, p, g) =
        rw (decode-encode_address codec law e.sender s, make_epoch_secret_key_share)
          (rw (decode-encode_uint64 e.eon n) (
            rw (decode-encode_uint64 e.epoch p)
              (rw (decode-encode_epoch_secret_key_share codec law e.share g) (refl))))

    gammas_read :
        (gs : List x.curve.G2)
        → 0 < length gs
        → All (λ g. All IsByte (x.curve.marshal_g2 g)) gs
        → decode_gammas x (encode_gammas x gs) ≡ ok gs
    gammas_read [] h w = absurd (omega (arith, h))
    gammas_read (g ∷ rest) h w = decode-encode_gammas codec law g rest w

    poly_commitment_read :
        (e : Events.PolyCommitment x)
        → IsSendable (poly_commitment_event e)
        → make_poly_commitment codec (poly_commitment_abci_event codec e) height
          ≡ ok (record e { height = height })
    unfolding poly_commitment_abci_event make_poly_commitment expect_attributes new_uint_pair
        plain_pair new_address_pair new_gammas
    poly_commitment_read e (s, n, h, w) =
        rw (decode-encode_address codec law e.sender s, make_poly_commitment)
          (rw (decode-encode_uint64 e.eon n) (rw (gammas_read e.gammas h w) (refl)))

    -- For encodings of addresses, bytes, keys and points that read back what they write and use no
    -- comma, and any event whose numbers are words, whose addresses have 20 bytes and whose bytes
    -- are bytes, and, if it is a commitment, with some gammas: `MakeEvent` reads what
    -- `MakeABCIEvent` makes as the same event, with the height that it is given; of a config only
    -- the indices, the threshold and the keypers are read.
    pub make_event-make_abci_event :
        (e : Event x)
        → IsSendable e
        → make_event codec (make_abci_event codec e) height ≡ ok (read_at height e)
    unfolding make_event make_abci_event batch_config_abci_event eon_started_abci_event
        check_in_abci_event decryption_signature_abci_event poly_eval_abci_event
        poly_commitment_abci_event accusation_abci_event apology_abci_event
        epoch_secret_key_share_abci_event
    make_event-make_abci_event (batch_config_event e) h = rw (batch_config_read e h) refl
    make_event-make_abci_event (eon_started_event e) h = rw (eon_started_read e h) refl
    make_event-make_abci_event (check_in_event e) h = rw (check_in_read e h) refl
    make_event-make_abci_event (decryption_signature_event e) h =
        rw (decryption_signature_read e h) refl
    make_event-make_abci_event (poly_eval_event e) h = rw (poly_eval_read e h) refl
    make_event-make_abci_event (poly_commitment_event e) h = rw (poly_commitment_read e h) refl
    make_event-make_abci_event (accusation_event e) h = rw (accusation_read e h) refl
    make_event-make_abci_event (apology_event e) h = rw (apology_read e h) refl
    make_event-make_abci_event (epoch_secret_key_share_event e) h =
        rw (epoch_secret_key_share_read e h) refl
