-- ===== src/Fx/Run/Waiting.antt =====
-- No pending action is forgotten: each waits in the channel of its kind (runenv.go).
use shielder.Base.{
  ◌+◌, ◌-◌, ◌<◌, ◌≡◌, ◌==◌, ℕ, refl, ap, inl, inr, some, List, [], arith, Bool-cases, length,
  get_or_else, HasKeysOnce, get, word_mod, ok, Result-cases, ok_injective, Returns-eq, nat_eq,
  list_eq,
}
use mathlib.Core.Path.{subst}
use shielder.Curve.{Curve}
use shielder.PureDkg.Phases.{range}
use shielder.Fx.{Action}
use shielder.Fx.Pending.{new_pending_actions, add_actions, sorted_ids, get_main_chain_tx_hash}
use shielder.Fx.Pending.Added.{Added, add_actions-Added}
use shielder.Fx.Pending.Sorted.{contains-sorted_ids}
use shielder.Fx.Run.{new_run_env, zerohash, RunEnv, run_actions, load, Step, Run}
use shielder.Fx.Run.Step.{ran, message_done, tx_dropped, tx_sent, mined, restarted}
use shielder.Fx.Run.Run.{here, next}
use shielder.Fx.Run.Removed.{
  IsWaiting, moved, message_done-IsWaiting, tx_dropped-IsWaiting, mined-IsWaiting,
  tx_sent-IsWaiting,
}
use shielder.Fx.Run.Scheduled.{Grown-Waits, schedule_all}

module _ {c : Curve} where
  load-IsWaiting :
      (env e : RunEnv c)
      → load (env.pending_actions) ≡ ok e
      → HasKeysOnce (env.pending_actions.action_map)
      → IsWaiting e
  unfolding load
  load-IsWaiting env e h once =
      let r =
        Returns-eq _ _ e
          (schedule_all (sorted_ids (env.pending_actions)) (record {
            pending_actions = env.pending_actions;
            shuttermint_messages = [];
            main_chain_txs = [];
            in_flight_main_chain_txs = [];
          }))
          h in
      record {
        once = rw (r.0.same) once;
        waits = λ j b there.
            let old : get j (env.pending_actions.action_map) ≡ some b = rw (r.0.same) at there in
            r.1 j b (contains-sorted_ids (env.pending_actions) j b old) old;
      }

  ran-IsWaiting :
      (env e : RunEnv c) (counter : ℕ) (actions : List (Action c))
      → run_actions env counter actions ≡ ok e
      → env.pending_actions.current_id + length actions < word_mod
      → IsWaiting env
      → IsWaiting e
  unfolding run_actions get_main_chain_tx_hash get
  ran-IsWaiting env e counter actions h small w = elim (Bool-cases (length actions == 0)) [
    | inl none_new ↦ subst IsWaiting (ok_injective (rw (none_new, run_actions) at h)) w
    | inr some_new ↦ elim (Result-cases (add_actions (env.pending_actions) counter actions)) [
      | inr (x, f) ↦ absurd (ground (arith, some_new, f, h))
      | inl (r, f) ↦
          let a =
            Returns-eq (λ r. Added (env.pending_actions) r.0 r.1.0 r.1.1) _ r
              (add_actions-Added (env.pending_actions) counter actions small) f in
          let s =
            Returns-eq _ _ e
              (schedule_all (range r.1.0 (r.1.1 - r.1.0)) (record env { pending_actions = r.0 }))
              (rw (some_new, f, run_actions) at h) in
          record {
            once = rw (s.0.same) (a.once w.once);
            waits = λ j b there.
                let now : get j (r.0.action_map) ≡ some b = rw (s.0.same) at there in
                elim (a.found j b now) [
                  | inl new_id ↦ s.1 j b new_id now
                  | inr old ↦ Grown-Waits s.0 j b (
                      moved env (record env { pending_actions = r.0 }) j b
                        (ap (λ m. get_or_else (get j m) zerohash) a.hashes) (λ p. p) (λ p. p)
                        (λ p. p) (w.waits j b old))
                ];
          }
    ]
  ]

  Step-IsWaiting : {d e : RunEnv c} → Step d e → IsWaiting d → IsWaiting e
  Step-IsWaiting {d} (ran counter actions e h small) w = ran-IsWaiting d e counter actions h small w
  Step-IsWaiting {d} (message_done id rest h) w = message_done-IsWaiting d id rest h w
  Step-IsWaiting {d} (tx_dropped id rest h) w = tx_dropped-IsWaiting d id rest h w
  Step-IsWaiting {d} (tx_sent id hash rest h some_hash) w =
      tx_sent-IsWaiting d id hash rest h some_hash w
  Step-IsWaiting {d} (mined id ids rest h) w = mined-IsWaiting d id ids rest h w
  Step-IsWaiting {d} (restarted e h) w = load-IsWaiting d e h w.once

  -- Over any run of the workers from the new environment on, with actions added while the ids are
  -- words, messages sent or given up, transactions sent with a hash that is not zero, given up or
  -- mined, and restarts from the pending actions: no pending action is forgotten, but each has its
  -- id in the channel of its kind, and a transaction that has been sent is in the channel of those
  -- in flight; and no id is pending twice.
  pub Run-IsWaiting : {e : RunEnv c} → Run new_run_env e → IsWaiting e
  unfolding new_run_env new_pending_actions get
  Run-IsWaiting here = record { once = refl; waits = λ j b there. cc }
  Run-IsWaiting (next r s) = Step-IsWaiting s (Run-IsWaiting r)
