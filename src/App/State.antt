-- ===== src/App/State.antt =====
-- The application's state (app/types.go), and what it looks up and adds to its configs (app/app.go).
pub mod Inv
pub mod Lookup
pub mod Extend
use shielder.Base.{
  ◌||◌, ◌∷◌, ◌++◌, ◌==◌, if◌then◌else◌, ◌>>=◌, ◌>>◌, ℕ, Bool, true, false, not, Option, none, some,
  List, [], ltb, leb, Map, is_some, has, get, put, add64, Result, ok, err, or_err, nat_eq, list_eq,
}
use shielder.Shmsg.{Bytes, Address}
use shielder.Panic.{Panic, guard_element_missing, configs_empty}
use shielder.Config.{
  BatchConfig, ConfigError, empty_config, keyper_index, is_keyper, ensure_valid, config_eq,
}
use shielder.Events.{DecryptionSignature}
use shielder.App.Nonces.{NonceTracker, new_nonce_tracker}
use shielder.App.CheckTx.{CheckTxState, new_check_tx_state, set_members}
use shielder.App.Voting.{ConfigVoting, EonStartVoting, new_config_voting}
use shielder.App.Dkg.{DkgInstance, new_dkg_instance}
use shielder.App.Powermap.{ValidatorPubkey, Powermap, new_validator_pubkey}

-- The config is a pointer in the source; nothing but its keypers is read through it.
pub record BatchState : Type 0 where
  pub batch_index : ℕ
  pub config : BatchConfig
  pub decryption_signatures : List (Address × Bytes)

-- `Gobpath` and `LastSaved`, which serve the file on disk, are left out.
pub record App : Type 0 where
  pub configs : List BatchConfig
  pub batch_states : Map ℕ BatchState
  pub dkg_map : Map ℕ DkgInstance
  pub config_voting : ConfigVoting
  pub eon_start_votings : Map ℕ EonStartVoting
  pub last_block_height : ℕ
  pub identities : Map Address ValidatorPubkey
  pub started_votes : List Address
  pub validators : Powermap
  pub eon_counter : ℕ
  pub dev_mode : Bool
  pub check_tx_state : CheckTxState
  pub nonce_tracker : NonceTracker
  pub chain_id : Bytes

unfoldable pub new_shielder_app : App
new_shielder_app = record {
  configs = empty_config ∷ [];
  batch_states = [];
  dkg_map = [];
  config_voting = new_config_voting;
  eon_start_votings = [];
  last_block_height = 0;
  identities = [];
  started_votes = [];
  validators = [];
  eon_counter = 0;
  dev_mode = false;
  check_tx_state = new_check_tx_state;
  nonce_tracker = new_nonce_tracker;
  chain_id = [];
}

-- The last element for which the test holds: a loop from the end of the slice.
unfoldable pub find_last {ℓ} : {A : Type ℓ} → (A → Bool) → List A → Option A
find_last p [] = none
find_last p (a ∷ rest) = elim (find_last p rest) [
  | some b ↦ some b
  | none ↦ if p a then some a else none
]

unfoldable pub get_config : List BatchConfig → ℕ → Result Panic BatchConfig
unfolding find_last
get_config configs batch_index =
    or_err (find_last (λ c. leb c.start_batch_index batch_index) configs) guard_element_missing

-- `app.Configs[len(app.Configs)-1]`
unfoldable pub last_config : List BatchConfig → Result Panic BatchConfig
unfolding find_last
last_config configs = or_err (find_last (λ _. true) configs) configs_empty

-- `app.Configs[len(app.Configs)-2]`, where there are two configs at least.
unfoldable pub config_before_last : List BatchConfig → Option BatchConfig
config_before_last [] = none
config_before_last (c ∷ []) = none
config_before_last (c ∷ d ∷ []) = some c
config_before_last (c ∷ d ∷ e ∷ rest) = config_before_last (d ∷ e ∷ rest)

pub data CheckError : Type 0 where
  invalid : ConfigError → CheckError
  start_batch_index_lower config_index_not_greater : CheckError

-- `checkConfig`, against the last config.
unfoldable pub check_config : BatchConfig → BatchConfig → Option CheckError
unfolding ensure_valid
check_config last cfg = elim (ensure_valid cfg) [
  | some e ↦ some (invalid e)
  | none ↦
      if ltb cfg.start_batch_index last.start_batch_index
      then some start_batch_index_lower
      else if leb cfg.config_index last.config_index
      then some config_index_not_greater
      else none
]

-- The loop of `updateCheckTxMembers`.
all_keypers : List BatchConfig → List Address
all_keypers [] = []
all_keypers (c ∷ rest) = c.keypers ++ all_keypers rest

unfoldable pub update_check_tx_members : App → App
unfolding all_keypers
update_check_tx_members app = record app {
  check_tx_state = set_members app.check_tx_state (all_keypers app.configs);
}

unfoldable pub add_config : App → BatchConfig → Result Panic (Result CheckError App)
unfolding update_check_tx_members
add_config app cfg = do
  last ← last_config app.configs
  ok (elim (check_config last cfg) [
    | some e ↦ err e
    | none ↦ ok (update_check_tx_members (record app { configs = app.configs ++ cfg ∷ [] }))
  ])

unfoldable pub get_batch_state : App → ℕ → Result Panic BatchState
get_batch_state app batch_index = elim (get batch_index app.batch_states) [
  | some bs ↦ ok bs
  | none ↦ get_config app.configs batch_index >>= λ c.
      ok (record { batch_index = batch_index; config = c; decryption_signatures = [] })
]

pub data SignatureError : Type 0 where
  signer_not_keyper already_signed : SignatureError

-- `AddDecryptionSignature` (app/batch_state.go).
unfoldable pub add_decryption_signature :
    BatchState → Address → Bytes → Result SignatureError BatchState
add_decryption_signature bs sender signature =
    if not (is_keyper bs.config sender)
    then err signer_not_keyper
    else if has sender bs.decryption_signatures
    then err already_signed
    else ok
        (record bs { decryption_signatures = bs.decryption_signatures ++ (sender, signature) ∷ [] })

unfoldable pub allowed_to_vote_on_config_changes : BatchConfig → Address → Bool
allowed_to_vote_on_config_changes last sender = is_some (keyper_index last sender)

-- `isKeyper`: of any config.
unfoldable pub is_keyper_of_any : List BatchConfig → Address → Bool
is_keyper_of_any [] a = false
is_keyper_of_any (cfg ∷ rest) a = is_some (keyper_index cfg a) || is_keyper_of_any rest a

-- `dkg` is the instance of the current eon.
unfoldable pub should_start_dkg : App → BatchConfig → Bool
should_start_dkg app config = elim (get app.eon_counter app.dkg_map) [
  | none ↦ true
  | some dkg ↦
      not (dkg.config.threshold == config.threshold) || not (dkg.config.keypers == config.keypers)
]

-- The counter is a `uint64`.
unfoldable pub start_dkg : App → BatchConfig → App × DkgInstance
start_dkg app config =
    let eon = add64 app.eon_counter 1 in
    let dkg = new_dkg_instance config eon in
    (record app { eon_counter = eon; dkg_map = put eon dkg app.dkg_map }, dkg)
