-- ===== src/App/Blocks.antt =====
-- Blocks: `InitChain`, `EndBlock` and `Commit` of app/app.go.
pub mod Genesis
pub mod Starting
pub mod Updates
pub mod Valid
use shielder.Base.{
  ◌+◌, ◌&&◌, ◌∷◌, ◌==◌, if◌then◌else◌, ◌>>=◌, ◌>>◌, ℕ, Bool, true, false, not, Option, none, some,
  List, [], leb, length, replicate, Map, is_some, get_or_else, has, get, Result, ok, err, or_err,
  nat_eq,
}
use shielder.Shmsg.{Bytes, Address}
use shielder.External.{External}
use shielder.Panic.{Panic, fatal}
use shielder.Config.{BatchConfig, empty_config, ensure_valid, config_eq}
use shielder.App.State.{App, last_config, config_before_last, update_check_tx_members}
use shielder.App.CheckTx.{new_check_tx_state, reset}
use shielder.App.Powermap.{
  ValidatorPubkey, pubkey_eq, Powermap, ValidatorUpdate, add_power, make_powermap, diff_powermaps,
  validator_updates,
}

pub record RequestInitChain : Type 0 where
  pub chain_id : Bytes
  pub validators : List ValidatorUpdate
  pub app_state_bytes : Bytes

-- `log.Fatalf` on an error.
abbrev or_fatal {ℓ} : {A : Type ℓ} → Option A → Result Panic A
or_fatal o = or_err o fatal

-- The stored configs are those of `NewShielderApp`: one, with no keyper.
abbrev is_new_chain : List BatchConfig → Bool
is_new_chain [] = false
is_new_chain (c ∷ []) = length c.keypers == 0
is_new_chain (c ∷ d ∷ rest) = false

abbrev pub genesis_config : List Address → ℕ → BatchConfig
genesis_config keypers threshold = record empty_config { keypers = keypers; threshold = threshold }

-- `reflect.DeepEqual(bc, *app.Configs[0])`
abbrev same_genesis : BatchConfig → List BatchConfig → Bool
same_genesis bc [] = false
same_genesis bc (c ∷ rest) = bc == c

module _ (x : External) where
  unfoldable pub init_chain : App → RequestInitChain → Result Panic App
  init_chain app req = do
    genesis ← or_fatal (x.unmarshal_genesis req.app_state_bytes)
    let bc = genesis_config genesis.keypers genesis.threshold
    (if is_some (ensure_valid bc) then some fatal else none)
    started ←
        (if is_new_chain app.configs
          then (or_fatal (make_powermap req.validators) >>= λ validators. ok (
              update_check_tx_members (record app {
                validators = validators;
                configs = bc ∷ [];
                check_tx_state = new_check_tx_state;
              })))
          else if same_genesis bc app.configs
          then ok app
          else err fatal)
    ok (record started { chain_id = req.chain_id })

-- `NonExistentValidator`: "novalidator" and 21 zero bytes.
abbrev pub non_existent_validator : ValidatorPubkey
non_existent_validator = record {
  ed25519_pubkey = 110 ∷ 111 ∷ 118 ∷ 97 ∷ 108 ∷ 105 ∷ 100 ∷ 97 ∷ 116 ∷ 111 ∷ 114 ∷ replicate 21 0;
}

-- The loop of `makePowermap`.
make_keyper_powermap : Map Address ValidatorPubkey → Powermap → List Address → Powermap
make_keyper_powermap identities pm [] = pm
make_keyper_powermap identities pm (k ∷ rest) =
    make_keyper_powermap identities
      (add_power (get_or_else (get k identities) non_existent_validator) 10 pm) rest

-- The config whose keypers validate: the last that is started and has enough of them.
active_config : List BatchConfig → Option BatchConfig
active_config [] = none
active_config (c ∷ rest) = elim (active_config rest) [
  | some d ↦ some d
  | none ↦ if c.started && c.validators_updated then some c else none
]

unfoldable pub current_validators : App → Powermap
unfolding make_keyper_powermap active_config
current_validators app = elim (active_config app.configs) [
  | none ↦ app.validators
  | some c ↦ make_keyper_powermap app.identities [] c.keypers
]

-- The counter is a `uint64`, and too small to wrap.
unfoldable pub count_checked_in_keypers : Map Address ValidatorPubkey → List Address → ℕ
count_checked_in_keypers identities [] = 0
count_checked_in_keypers identities (k ∷ rest) =
    let others = count_checked_in_keypers identities rest in
    if has k identities then others + 1 else others

-- A write through the pointer `lastConfig`.
set_last : BatchConfig → List BatchConfig → List BatchConfig
set_last c [] = []
set_last c (d ∷ []) = c ∷ []
set_last c (d ∷ e ∷ rest) = d ∷ set_last c (e ∷ rest)

-- The first part of `EndBlock`: the last config starts when enough keypers of the one before it voted.
unfoldable pub start_last_config : App → BatchConfig → App × BatchConfig
start_last_config app last = elim (config_before_last app.configs) [
  | none ↦ (app, last)
  | some current ↦
      if leb current.threshold (length app.started_votes)
      then (record app { started_votes = [] }, record last { started = true })
      else (app, last)
]

unfoldable pub update_last_config : App → BatchConfig → BatchConfig
update_last_config app last =
    if last.started
      && not last.validators_updated
      && leb last.threshold (count_checked_in_keypers app.identities last.keypers)
    then record last { validators_updated = true }
    else last

-- `EndBlock`, behind the lookup of `lastConfig`.
unfoldable pub end_block_with : App → ℕ → BatchConfig → App × List ValidatorUpdate
unfolding start_last_config update_last_config set_last
end_block_with app height last =
    let (voted, started) = start_last_config app last in
    let updated = update_last_config voted started in
    let app' = record voted { configs = set_last updated voted.configs } in
    let new_validators = current_validators app' in
    let updates = validator_updates (diff_powermaps app.validators new_validators) in
    (
      record app' { validators = new_validators; last_block_height = height },
      if app.dev_mode then [] else updates,
    )

unfoldable pub end_block : App → ℕ → Result Panic (App × List ValidatorUpdate)
unfolding end_block_with
end_block app height = last_config app.configs >>= λ last. ok (end_block_with app height last)

-- `Commit`, but for the file on disk.
unfoldable pub commit : App → App
commit app = record app { check_tx_state = reset app.check_tx_state }
