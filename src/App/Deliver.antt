-- ===== src/App/Deliver.antt =====
-- The delivery of a message (the `deliver...` and `handle...` methods of app/app.go).
pub mod Post
pub mod Valid
pub mod Others
use shielder.Base.{
  ◌∷◌, ◌==◌, if◌then◌else◌, ◌>>=◌, ◌>>◌, ℕ, not, Option, none, some, List, [], get_or_else, has,
  get, put, delete, Result, ok, err, insert, nat_eq,
}
use shielder.Shmsg.{Bytes, Address, BatchConfigMsg, CheckInMsg}
use shielder.External.{External}
use shielder.Panic.{Panic}
use shielder.Config.{BatchConfig, ConfigError, is_keyper, batch_config_from_message, config_eq}
use shielder.Events.{
  Event, batch_config_event, eon_started_event, check_in_event, decryption_signature_event,
}
use shielder.App.State.{
  App, CheckError, SignatureError, get_config, last_config, config_before_last, check_config,
  add_config, get_batch_state, add_decryption_signature, allowed_to_vote_on_config_changes,
  is_keyper_of_any, should_start_dkg, start_dkg,
}
use shielder.App.Voting.{
  new_config_voting, new_eon_start_voting, add_config_vote, add_eon_start_vote, config_outcome,
  eon_start_outcome,
}
use shielder.App.Dkg.{DkgInstance, DkgError}
use shielder.App.Messages.{ParseError}
use shielder.App.Powermap.{new_validator_pubkey}

-- Why a transaction is refused: the `Log` of an error response.
pub data TxError : Type 0 where
  cannot_decode wrong_chain_id nonce_used cannot_deliver : TxError
  malformed_config : ConfigError → TxError
  bad_config : CheckError → TxError
  not_allowed_to_vote bad_vote : TxError
  not_a_keyper already_checked_in malformed_validator_key malformed_encryption_key : TxError
  not_the_last_config no_config_to_vote_on : TxError
  bad_signature : SignatureError → TxError
  dkg_not_active : TxError
  malformed : ParseError → TxError
  not_registered : DkgError → TxError

-- `ResponseDeliverTx`: code 1 with a log, or code 0 with events.
pub data Response (x : External) : Type 0 where
  error_response : TxError → Response x
  success : List (Event x) → Response x

-- A handler's outcome: the program stops, or it has a new state and a response.
abbrev pub Handled : External → Type 0
Handled x = Result Panic (App × Response x)

module _ (x : External) where
  -- `makeErrorResponse`: nothing is changed from `app` on.
  abbrev pub refuse : App → TxError → Handled x
  refuse app e = ok (app, error_response e)

  -- The part of `deliverBatchConfig` behind a vote that decides.
  accept_config : App → BatchConfig → Handled x
  accept_config app bc = add_config (record app { config_voting = new_config_voting }) bc >>= elim [
    | err e ↦ refuse (record app { config_voting = new_config_voting }) (bad_config e)
    | ok added ↦
        if should_start_dkg added bc
        then (do
          let (started, dkg) = start_dkg added bc
          last ← last_config started.configs
          ok (
            started,
            success (
                batch_config_event bc
                ∷ eon_started_event
                    (record { height = 0; eon = dkg.eon; batch_index = last.start_batch_index })
                ∷ []),
          ))
        else ok (added, success (batch_config_event bc ∷ []))
  ]

  -- The vote for a config that passed the checks. `int(Threshold)` keeps the bits.
  vote_on_config : App → BatchConfig → BatchConfig → Address → Handled x
  unfolding accept_config
  vote_on_config app last bc sender = elim (add_config_vote app.config_voting sender bc) [
    | err _ ↦ refuse app bad_vote
    | ok voting ↦ config_outcome x voting last.threshold >>= elim [
      | none ↦ ok (record app { config_voting = voting }, success [])
      | some _ ↦ accept_config (record app { config_voting = voting }) bc
    ]
  ]

  unfoldable pub deliver_batch_config : App → BatchConfigMsg → Address → Handled x
  unfolding vote_on_config
  deliver_batch_config app msg sender = elim (batch_config_from_message x msg) [
    | err e ↦ refuse app (malformed_config e)
    | ok bc ↦ last_config app.configs >>= λ last.
        if last == bc then ok (app, success []) else elim (check_config last bc) [
          | some e ↦ refuse app (bad_config e)
          | none ↦
              if allowed_to_vote_on_config_changes last sender
              then vote_on_config app last bc sender
              else refuse app not_allowed_to_vote
        ]
  ]

  unfoldable pub deliver_check_in : App → CheckInMsg → Address → Handled x
  deliver_check_in app msg sender =
      if has sender app.identities
      then refuse app already_checked_in
      else if not (is_keyper_of_any app.configs sender)
      then refuse app not_a_keyper
      else elim (new_validator_pubkey msg.validator_public_key) [
        | none ↦ refuse app malformed_validator_key
        | some pk ↦ elim (x.decompress_pubkey msg.encryption_public_key) [
          | none ↦ refuse app malformed_encryption_key
          | some key ↦ ok (
            record app { identities = put sender pk app.identities },
            success (
                check_in_event (record { height = 0; sender = sender; encryption_public_key = key })
                ∷ []),
          )
        ]
      ]

  unfoldable pub deliver_batch_config_started : App → ℕ → Address → Handled x
  deliver_batch_config_started app config_index sender = last_config app.configs >>= λ last.
      if not (config_index == last.config_index)
      then refuse app not_the_last_config
      else elim (config_before_last app.configs) [
        | none ↦ refuse app no_config_to_vote_on
        | some before ↦
            if not (is_keyper before sender)
            then refuse app not_a_keyper
            else ok (
              if last.started
                  then app
                  else record app { started_votes = insert sender app.started_votes },
              success [],
            )
      ]

  -- `countEonStartVote`: the voting is made when it is missing, and shared.
  unfoldable pub count_eon_start_vote : App → Address → BatchConfig → ℕ → App
  count_eon_start_vote app sender config start_batch_index =
      let v = get_or_else (get config.config_index app.eon_start_votings) new_eon_start_voting in
      record app {
        eon_start_votings =
            put config.config_index (add_eon_start_vote v sender start_batch_index)
              app.eon_start_votings;
      }

  unfoldable pub maybe_start_eon : App → BatchConfig → Result Panic (App × Option (DkgInstance × ℕ))
  maybe_start_eon app config = elim (get config.config_index app.eon_start_votings) [
    | none ↦ ok (app, none)
    | some v ↦ eon_start_outcome x v config.threshold >>= elim [
      | none ↦ ok (app, none)
      | some start_batch_index ↦
          let votings = delete config.config_index app.eon_start_votings in
          let (started, dkg) = start_dkg (record app { eon_start_votings = votings }) config in
          ok (started, some (dkg, start_batch_index))
    ]
  ]

  -- The event of an eon that has started.
  unfoldable pub eon_started_events : Option (DkgInstance × ℕ) → List (Event x)
  eon_started_events none = []
  eon_started_events (some (dkg, batch_index)) =
      eon_started_event (record { height = 0; eon = dkg.eon; batch_index = batch_index }) ∷ []

  unfoldable pub deliver_eon_start_vote_msg : App → ℕ → Address → Handled x
  unfolding count_eon_start_vote maybe_start_eon eon_started_events
  deliver_eon_start_vote_msg app start_batch_index sender =
      get_config app.configs start_batch_index >>= λ config.
      if not (is_keyper config sender)
      then refuse app not_a_keyper
      else (maybe_start_eon (count_eon_start_vote app sender config start_batch_index) config
          >>= λ r. ok (r.0, success (eon_started_events r.1)))

  unfoldable pub deliver_decryption_signature : App → ℕ → Bytes → Address → Handled x
  deliver_decryption_signature app batch_index signature sender =
      get_batch_state app batch_index >>= λ bs.
      elim (add_decryption_signature bs sender signature) [
        | err e ↦ refuse app (bad_signature e)
        | ok signed ↦ ok (
          record app { batch_states = put batch_index signed app.batch_states },
          success (
              decryption_signature_event (record {
                height = 0;
                batch_index = batch_index;
                sender = sender;
                signature = signature;
              })
              ∷ []),
        )
      ]
