-- ===== src/Fx/Run.antt =====
-- How actions are run (keyper/fx/runenv.go): their ids go through three channels, which are queues here.
-- A step is what a worker does between two reads of a channel; what the chains answer is left open.
pub mod Scheduled
pub mod Removed
pub mod Waiting
use shielder.Base.{
  ◌+◌, ◌-◌, ◌<◌, ◌≡◌, ◌∷◌, ◌++◌, ◌==◌, if◌then◌else◌, ◌>>=◌, ℕ, Bool, true, false, List, [], length,
  replicate, word_mod, Result, ok, or_err, nat_eq, list_eq,
}
use shielder.Shmsg.{Bytes}
use shielder.Curve.{Curve}
use shielder.Panic.{Panic, fatal}
use shielder.PureDkg.Phases.{range}
use shielder.Decide.{fold}
use shielder.Fx.{Action, send_shielder_message}
use shielder.Fx.Pending.{
  PendingActions, new_pending_actions, sorted_ids, add_actions, set_main_chain_tx_hash,
  get_main_chain_tx_hash, remove_action, get_action,
}

abbrev pub zerohash : Bytes
zerohash = replicate 32 0

pub record RunEnv (c : Curve) : Type 0 where
  pub pending_actions : PendingActions (Action c)
  pub shuttermint_messages : List ℕ
  pub main_chain_txs : List ℕ
  pub in_flight_main_chain_txs : List ℕ

module _ {c : Curve} where
  -- `NewRunEnv`, without a file of pending actions.
  unfoldable pub new_run_env : RunEnv c
  new_run_env = record {
    pending_actions = new_pending_actions;
    shuttermint_messages = [];
    main_chain_txs = [];
    in_flight_main_chain_txs = [];
  }

  abbrev pub is_message : Action c → Bool
  is_message (send_shielder_message msg) = true
  is_message a = false

  -- The channel is chosen; a missing action is fatal.
  unfoldable pub schedule_action : RunEnv c → ℕ → Result Panic (RunEnv c)
  schedule_action env id = or_err (get_action (env.pending_actions) id) fatal >>= λ act. ok (
      if is_message act
      then record env { shuttermint_messages = env.shuttermint_messages ++ id ∷ [] }
      else if get_main_chain_tx_hash (env.pending_actions) id == zerohash
      then record env { main_chain_txs = env.main_chain_txs ++ id ∷ [] }
      else record env { in_flight_main_chain_txs = env.in_flight_main_chain_txs ++ id ∷ [] })

  unfoldable pub run_actions : RunEnv c → ℕ → List (Action c) → Result Panic (RunEnv c)
  unfolding schedule_action
  run_actions env action_counter actions =
      if length actions == 0
      then ok env
      else (add_actions (env.pending_actions) action_counter actions >>= λ r.
          fold schedule_action (record env { pending_actions = r.0 }) (range r.1.0 (r.1.1 - r.1.0)))

  -- `Load` after a start: the channels are empty.
  unfoldable pub load : PendingActions (Action c) → Result Panic (RunEnv c)
  unfolding schedule_action
  load pending =
      let new : RunEnv c = record {
        pending_actions = pending;
        shuttermint_messages = [];
        main_chain_txs = [];
        in_flight_main_chain_txs = [];
      } in
      fold schedule_action new (sorted_ids pending)

  -- A message that was sent, or that an error forbids to send again.
  unfoldable pub finish_message : RunEnv c → ℕ → List ℕ → RunEnv c
  finish_message env id rest = record env {
    shuttermint_messages = rest;
    pending_actions = remove_action (env.pending_actions) id;
  }

  -- A transaction that is expired, or that an error forbids to send again.
  unfoldable pub drop_tx : RunEnv c → ℕ → List ℕ → RunEnv c
  drop_tx env id rest = record env {
    main_chain_txs = rest;
    pending_actions = remove_action (env.pending_actions) id;
  }

  -- `sendMainChainTX`, when the transaction has been sent.
  unfoldable pub send_main_chain_tx : RunEnv c → ℕ → Bytes → List ℕ → RunEnv c
  send_main_chain_tx env id hash rest = record env {
    main_chain_txs = rest;
    in_flight_main_chain_txs = env.in_flight_main_chain_txs ++ id ∷ [];
    pending_actions = set_main_chain_tx_hash (env.pending_actions) id hash;
  }

  -- The body of `handleInFlightTXs`, by whichever worker; `rest` are the other ids.
  unfoldable pub finish_in_flight : RunEnv c → ℕ → List ℕ → RunEnv c
  finish_in_flight env id rest = record env {
    in_flight_main_chain_txs = rest;
    pending_actions = remove_action (env.pending_actions) id;
  }

  pub data Step (env : RunEnv c) : RunEnv c → Type 0 where
    ran :
        (action_counter : ℕ) (actions : List (Action c)) (env' : RunEnv c)
        → run_actions env action_counter actions ≡ ok env'
        → env.pending_actions.current_id + length actions < word_mod
        → Step env env'
    message_done :
        (id : ℕ) (rest : List ℕ)
        → env.shuttermint_messages ≡ id ∷ rest
        → Step env (finish_message env id rest)
    tx_dropped :
        (id : ℕ) (rest : List ℕ) → env.main_chain_txs ≡ id ∷ rest → Step env (drop_tx env id rest)
    tx_sent :
        (id : ℕ) (hash : Bytes) (rest : List ℕ)
        → env.main_chain_txs ≡ id ∷ rest
        → (hash == zerohash) ≡ false
        → Step env (send_main_chain_tx env id hash rest)
    mined :
        (id : ℕ) (front rest : List ℕ)
        → env.in_flight_main_chain_txs ≡ front ++ id ∷ rest
        → Step env (finish_in_flight env id (front ++ rest))
    restarted : (env' : RunEnv c) → load (env.pending_actions) ≡ ok env' → Step env env'

  pub data Run (env : RunEnv c) : RunEnv c → Type 0 where
    here : Run env env
    next : {d e : RunEnv c} → Run env d → Step d e → Run env e
