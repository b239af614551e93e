-- ===== src/Shmsg.antt =====
-- The messages that keypers send to shuttermint (shmsg/shmsg.proto, and the Go types generated from it).
pub mod New
use shielder.Base.{ℕ, Bool, List}

-- `[]byte`, each byte below 256.
abbrev pub Bytes : Type 0
Bytes = List ℕ

-- `common.Address`: the number that its 20 bytes spell.
abbrev pub Address : Type 0
Address = ℕ

pub record BatchConfigMsg : Type 0 where
  pub start_batch_index : ℕ
  pub keypers : List Bytes
  pub threshold : ℕ
  pub config_contract_address : Bytes
  pub config_index : ℕ
  pub started : Bool
  pub validators_updated : Bool

pub record CheckInMsg : Type 0 where
  pub validator_public_key : Bytes
  pub encryption_public_key : Bytes

pub record PolyEvalMsg : Type 0 where
  pub eon : ℕ
  pub receivers : List Bytes
  pub encrypted_evals : List Bytes

pub record PolyCommitmentMsg : Type 0 where
  pub eon : ℕ
  pub gammas : List Bytes

pub record AccusationMsg : Type 0 where
  pub eon : ℕ
  pub accused : List Bytes

pub record ApologyMsg : Type 0 where
  pub eon : ℕ
  pub accusers : List Bytes
  pub poly_evals : List Bytes

pub record EpochSecretKeyShareMsg : Type 0 where
  pub eon : ℕ
  pub epoch : ℕ
  pub share : Bytes

-- The payload of a `Message`; `missing` is a message with no payload, or none at all.
pub data Message : Type 0 where
  batch_config : BatchConfigMsg → Message
  batch_config_started : ℕ → Message
  check_in : CheckInMsg → Message
  eon_start_vote : ℕ → Message
  decryption_signature : ℕ → Bytes → Message
  poly_eval : PolyEvalMsg → Message
  poly_commitment : PolyCommitmentMsg → Message
  accusation : AccusationMsg → Message
  apology : ApologyMsg → Message
  epoch_secret_key_share : EpochSecretKeyShareMsg → Message
  missing : Message

pub record MessageWithNonce : Type 0 where
  pub msg : Message
  pub chain_id : Bytes
  pub random_nonce : ℕ
