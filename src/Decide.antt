-- ===== src/Decide.antt =====
-- The state of a keyper, on which it decides what to do (keyper/decide.go), and the parts of its
-- decider that the other modules share.
pub mod Dkgs
pub mod Epochs
pub mod Execution
pub mod Appeals
pub mod All
use shielder.Base.{
  ◌∷◌, ◌++◌, ◌==◌, if◌then◌else◌, ◌>>=◌, ℕ, Bool, false, Option, none, some, List, [], Map, add64,
  signed_lt, Result, ok, mul64, nat_eq,
}
use shielder.Shmsg.{Bytes, Address, Message}
use shielder.External.{External}
use shielder.Shcrypto.{Polynomial}
use shielder.PureDkg.{
  Phase, off, dealing, accusing, apologizing, finalized, phase_number, PureDkg, PolyEvalMsg,
}
use shielder.EpochKg.{EpochKg}
use shielder.MainChain.{MainChain}
use shielder.Observe.Shielder.{Shielder}
use shielder.Fx.{Action, send_shielder_message}

-- A loop whose body may fail.
abbrev pub fold {ℓ κ μ} :
    {S : Type ℓ} {A : Type κ} {E : Type μ} → (S → A → Result E S) → S → List A → Result E S
fold f s [] = ok s
fold f s (a ∷ rest) = f s a >>= λ s'. fold f s' rest

-- What the keyper takes from libraries, beside those of the chain's application.
pub record Libraries (x : External) : Type 0 where
  -- `common.Address.Bytes`
  pub address_bytes : Address → Bytes
  -- `(*EncryptionPublicKey).Encrypt` with the randomness that it draws, and `Decrypt` with the key
  -- of this keyper.
  pub encrypt : x.PublicKey → Bytes → Bytes
  pub decrypt : Bytes → Option Bytes
  -- `sha3.NewLegacyKeccak256`, and `crypto.Sign` of a hash with the key of this keyper.
  pub keccak256 : Bytes → Bytes
  pub sign : Bytes → Option Bytes
  -- `RandomPolynomial`, in the eon.
  pub random_polynomial : ℕ → Option Polynomial
  -- `(*bn256.G2).Unmarshal` with the bytes left over, and `Marshal` of G1.
  pub read_g2 : Bytes → Option (x.curve.G2 × Bytes)
  pub marshal_g1 : x.curve.G1 → Bytes
  -- `(*rand.Rand).Shuffle`, for the seed.
  pub shuffle : ℕ → List Bytes → List Bytes

-- `Config`, as far as the decider reads it, with the public keys and the address of its keys.
pub record KeyperConfig : Type 0 where
  pub address : Address
  pub validator_public_key : Bytes
  pub encryption_public_key : Bytes
  pub config_contract_address : Address
  pub batcher_contract_address : Address
  pub execution_staggering : ℕ
  pub dkg_phase_length : ℕ

-- `maxParallelHalfSteps`
abbrev pub max_parallel_half_steps : ℕ
max_parallel_half_steps = 10

pub record Batch : Type 0 where
  pub batch_index : ℕ
  pub decryption_signature_hash : Bytes
  pub decrypted_transactions : List Bytes
  pub decrypted_batch_hash : Bytes
  pub decryption_signature_index : ℕ
  pub signature_count : ℕ

-- `int64` numbers.
pub record PhaseLength : Type 0 where
  pub off : ℕ
  pub dealing : ℕ
  pub accusing : ℕ
  pub apologizing : ℕ

unfoldable pub new_constant_phase_length : ℕ → PhaseLength
new_constant_phase_length l = record {
  off = mul64 0 l;
  dealing = mul64 1 l;
  accusing = mul64 2 l;
  apologizing = mul64 3 l;
}

unfoldable pub get_phase_at_height : PhaseLength → ℕ → ℕ → Phase
get_phase_at_height plen height start =
    if signed_lt height (add64 start (plen.off))
    then off
    else if signed_lt height (add64 start (plen.dealing))
    then dealing
    else if signed_lt height (add64 start (plen.accusing))
    then accusing
    else if signed_lt height (add64 start (plen.apologizing))
    then apologizing
    else finalized

-- `Pure` is never nil: `startDKG` sets it.
pub record Dkg (x : External) : Type 0 where
  pub eon : ℕ
  pub start_batch_index : ℕ
  pub keypers : List Address
  pub pure : PureDkg x.curve
  pub outgoing_poly_eval_msgs : List PolyEvalMsg
  pub phase_length : PhaseLength

pub record Ekg (x : External) : Type 0 where
  pub eon : ℕ
  pub keypers : List Address
  pub epoch_kg : EpochKg x.curve

pub record State (x : External) : Type 0 where
  pub check_in_message_sent : Bool
  pub last_sent_batch_config_index : ℕ
  pub last_eon_started : ℕ
  pub dkgs : List (Dkg x)
  pub ekgs : List (Ekg x)
  pub pending_half_step : Option ℕ
  pub pending_appeals : List ℕ
  pub next_epoch_secret_share : ℕ
  pub batches : Map ℕ Batch
  pub half_steps_checked : ℕ
  pub action_counter : ℕ
  pub actions : List (Action x.curve)
  pub sync_height : ℕ

-- The configuration is a parameter; `actions` are those decided in this step.
pub record Decider (x : External) : Type 0 where
  pub state : State x
  pub shielder : Shielder x
  pub main_chain : MainChain
  pub actions : List (Action x.curve)
  pub phase_length : PhaseLength

abbrev pub has_phase : Phase → Phase → Bool
has_phase p q = phase_number p == phase_number q

module _ {x : External} where
  unfoldable pub new_state : State x
  new_state = record {
    check_in_message_sent = false;
    last_sent_batch_config_index = 0;
    last_eon_started = 0;
    dkgs = [];
    ekgs = [];
    pending_half_step = none;
    pending_appeals = [];
    next_epoch_secret_share = 0;
    batches = [];
    half_steps_checked = 0;
    action_counter = 0;
    actions = [];
    sync_height = 0;
  }

  unfoldable pub add_action : Decider x → Action x.curve → Decider x
  add_action d a = record d { actions = d.actions ++ a ∷ [] }

  unfoldable pub send_message : Decider x → Message → Decider x
  unfolding add_action
  send_message d msg = add_action d (send_shielder_message msg)

  unfoldable pub is_finalized : Dkg x → Bool
  is_finalized dkg = has_phase (dkg.pure.phase) finalized

  -- `FindEKGByEon`
  unfoldable pub find_ekg_by_eon : List (Ekg x) → ℕ → Option (Ekg x)
  find_ekg_by_eon [] eon = none
  find_ekg_by_eon (ekg ∷ rest) eon = if ekg.eon == eon then some ekg else find_ekg_by_eon rest eon
