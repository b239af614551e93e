-- ===== src/Keyper.antt =====
-- The loop of the keyper (keyper/keyper.go), with what stands on the disk: after each decision the
-- state is saved, and then its actions are added to the pending ones, which are saved as well. The
-- program may stop at any time and start again from the disk.
pub mod Restarts
use shielder.Base.{
  ◌<◌, ◌≡◌, ◌++◌, ◌==◌, if◌then◌else◌, ◌>>=◌, ℕ, List, [], ltb, length, word_mod, add64, Result, ok,
  err, nat_eq,
}
use shielder.Panic.{Panic, unexpected_error}
use shielder.Fx.Pending.{PendingActions, new_pending_actions, add_actions, remove_action}

-- Where the loop is: waiting for a new world, with actions to run, or with its actions added.
pub data Stage : Type 0 where
  waiting to_run added : Stage

-- `saved_actions` and `saved_counter` are the file of the state; the file of the pending actions is
-- always as they are.
pub record Keyper (A : Type 0) : Type 0 where
  pub stage : Stage
  pub actions : List A
  pub action_counter : ℕ
  pub pending : PendingActions A
  pub saved_actions : List A
  pub saved_counter : ℕ

module _ {A : Type 0} where
  unfoldable pub new_keyper : Keyper A
  new_keyper = record {
    stage = waiting;
    actions = [];
    action_counter = 0;
    pending = new_pending_actions;
    saved_actions = [];
    saved_counter = 0;
  }

  -- The first half of `runOneStep`, with the actions that are decided: up to `saveState`.
  unfoldable pub decide_and_save : Keyper A → List A → Result Panic (Keyper A)
  decide_and_save k actions =
      if ltb 0 (length (k.actions))
      then err unexpected_error
      else ok (record k {
        stage = to_run;
        actions = actions;
        saved_actions = actions;
        saved_counter = k.action_counter;
      })

  -- `runActions`, up to the call of `RunActions`, which does nothing without actions.
  unfoldable pub run_actions : Keyper A → Result Panic (Keyper A)
  run_actions k =
      if length (k.actions) == 0
      then ok (record k { stage = added })
      else (add_actions (k.pending) (k.action_counter) (k.actions) >>= λ r.
          ok (record k { stage = added; pending = r.0 }))

  -- The end of `runActions`.
  unfoldable pub count_actions : Keyper A → Keyper A
  count_actions k = record k {
    stage = waiting;
    action_counter = add64 (k.action_counter) (length (k.actions));
    actions = [];
  }

  -- `LoadState` after a stop at whatever stage; then the loop begins by running the actions.
  unfoldable pub restart : Keyper A → Keyper A
  restart k = record k {
    stage = to_run;
    actions = k.saved_actions;
    action_counter = k.saved_counter;
  }

  -- What can happen, with all the actions that have been decided. Their ids do not overflow.
  pub data Step (k : Keyper A) (ds : List A) : Keyper A → List A → Type 0 where
    decided :
        (actions : List A) (k' : Keyper A)
        → k.stage ≡ waiting
        → decide_and_save k actions ≡ ok k'
        → length (ds ++ actions) < word_mod
        → Step k ds k' (ds ++ actions)
    ran : (k' : Keyper A) → k.stage ≡ to_run → run_actions k ≡ ok k' → Step k ds k' ds
    counted : k.stage ≡ added → Step k ds (count_actions k) ds
    removed : (id : ℕ) → Step k ds (record k { pending = remove_action (k.pending) id }) ds
    restarted : Step k ds (restart k) ds

  pub data Run : Keyper A → List A → Type 0 where
    start : Run new_keyper []
    next : {k k' : Keyper A} {ds ds' : List A} → Run k ds → Step k ds k' ds' → Run k' ds'
