-- ===== src/Shmsg/New.antt =====
-- The messages that a keyper makes (shmsg/messages.go).
use shielder.Base.{
  ◌/◌, ◌%◌, ◌∷◌, ◌==◌, if◌then◌else◌, ℕ, zero, suc, Bool, true, false, List, [], map, length,
  Result, ok, err, nat_eq,
}
use shielder.Shmsg.{
  Bytes, Address, Message, batch_config, batch_config_started, decryption_signature, apology,
  accusation, poly_commitment, poly_eval, eon_start_vote, check_in, epoch_secret_key_share,
}
use shielder.Panic.{Panic, bad_argument}
use shielder.Curve.{Curve}

-- The bytes of a number below 256 ^ fuel, the first one first.
unfoldable pub bytes_from : ℕ → ℕ → Bytes → Bytes
bytes_from zero n rest = rest
bytes_from (suc fuel) n rest = elim (n == 0) [
  | true ↦ rest
  | false ↦ bytes_from fuel (n / 256) ((n % 256) ∷ rest)
]

-- `(*big.Int).Bytes`: a number has no more bytes than its own value.
unfoldable pub int_bytes : ℕ → Bytes
unfolding bytes_from
int_bytes n = bytes_from n n []

-- `common.Address.Bytes` is the parameter `address_bytes`.
module _ (address_bytes : Address → Bytes) where
  unfoldable pub new_batch_config : ℕ → List Address → ℕ → Address → ℕ → Bool → Bool → Message
  new_batch_config start keypers threshold contract config_index started validators_updated =
      batch_config (record {
        start_batch_index = start;
        keypers = map address_bytes keypers;
        threshold = threshold;
        config_contract_address = address_bytes contract;
        config_index = config_index;
        started = started;
        validators_updated = validators_updated;
      })

  unfoldable pub new_apology : ℕ → List Address → List ℕ → Result Panic Message
  unfolding int_bytes
  new_apology eon accusers poly_evals =
      if length accusers == length poly_evals
      then ok (
          apology (record {
            eon = eon;
            accusers = map address_bytes accusers;
            poly_evals = map int_bytes poly_evals;
          }))
      else err bad_argument

  unfoldable pub new_accusation : ℕ → List Address → Message
  new_accusation eon accused =
      accusation (record { eon = eon; accused = map address_bytes accused })

  unfoldable pub new_poly_eval : ℕ → List Address → List Bytes → Message
  new_poly_eval eon receivers encrypted_evals = poly_eval (record {
    eon = eon;
    receivers = map address_bytes receivers;
    encrypted_evals = encrypted_evals;
  })

unfoldable pub new_decryption_signature : ℕ → Bytes → Message
new_decryption_signature batch_index signature = decryption_signature batch_index signature

unfoldable pub new_eon_start_vote : ℕ → Message
new_eon_start_vote start_batch_index = eon_start_vote start_batch_index

unfoldable pub new_poly_commitment : (c : Curve) → ℕ → List c.G2 → Message
new_poly_commitment c eon gammas =
    poly_commitment (record { eon = eon; gammas = map (c.marshal_g2) gammas })

-- The key comes compressed, as `crypto.CompressPubkey` makes it.
unfoldable pub new_check_in : Bytes → Bytes → Message
new_check_in validator_public_key encryption_public_key = check_in (record {
  validator_public_key = validator_public_key;
  encryption_public_key = encryption_public_key;
})

-- The share comes encoded, as its `GobEncode` makes it.
unfoldable pub new_epoch_secret_key_share : ℕ → ℕ → Bytes → Message
new_epoch_secret_key_share eon epoch share =
    epoch_secret_key_share (record { eon = eon; epoch = epoch; share = share })

unfoldable pub new_batch_config_started : ℕ → Message
new_batch_config_started config_index = batch_config_started config_index
