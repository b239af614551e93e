-- ===== src/Events.antt =====
-- The events that the application emits and the keypers read (keyper/shutterevents/events.go).
pub mod Text
pub mod Marshal
pub mod Abci
pub mod Make
use shielder.Base.{ℕ, List}
use shielder.Shmsg.{Bytes, Address}
use shielder.External.{External}
use shielder.Config.{BatchConfig}

pub record Accusation : Type 0 where
  pub height : ℕ
  pub eon : ℕ
  pub sender : Address
  pub accused : List Address

pub record Apology : Type 0 where
  pub height : ℕ
  pub eon : ℕ
  pub sender : Address
  pub accusers : List Address
  pub poly_eval : List ℕ

pub record CheckIn (x : External) : Type 0 where
  pub height : ℕ
  pub sender : Address
  pub encryption_public_key : x.PublicKey

pub record DecryptionSignature : Type 0 where
  pub height : ℕ
  pub batch_index : ℕ
  pub sender : Address
  pub signature : Bytes

pub record EonStarted : Type 0 where
  pub height : ℕ
  pub eon : ℕ
  pub batch_index : ℕ

pub record PolyCommitment (x : External) : Type 0 where
  pub height : ℕ
  pub eon : ℕ
  pub sender : Address
  pub gammas : List x.curve.G2

pub record PolyEval : Type 0 where
  pub height : ℕ
  pub sender : Address
  pub eon : ℕ
  pub receivers : List Address
  pub encrypted_evals : List Bytes

pub record EpochSecretKeyShare (x : External) : Type 0 where
  pub height : ℕ
  pub sender : Address
  pub eon : ℕ
  pub epoch : ℕ
  pub share : x.curve.G1

-- One of them, before it is encoded as an `abcitypes.Event`.
pub data Event (x : External) : Type 0 where
  batch_config_event : BatchConfig → Event x
  eon_started_event : EonStarted → Event x
  check_in_event : CheckIn x → Event x
  decryption_signature_event : DecryptionSignature → Event x
  poly_eval_event : PolyEval → Event x
  poly_commitment_event : PolyCommitment x → Event x
  accusation_event : Accusation → Event x
  apology_event : Apology → Event x
  epoch_secret_key_share_event : EpochSecretKeyShare x → Event x
