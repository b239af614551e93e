-- ===== src/Fx/Run/Removed.antt =====
-- When an action is done, or its transaction is sent, the others still wait (runenv.go).
use shielder.Base.{
  ◌≡◌, ◌∙◌, ◌∷◌, ◌++◌, ◌==◌, ℕ, refl, sym, ap, inl, inr, true, false, some, List, [], arith,
  Bool-cases, =ℕ_iff, contains, get_or_else, HasKeysOnce, get-put, get, put, get-delete_other,
  get-delete_self, delete-HasKeysOnce, nat_eq, list_eq,
}
use mathlib.Core.Path.{subst}
use shielder.Curve.{Curve}
use shielder.Fx.{Action}
use shielder.Fx.Pending.{get_main_chain_tx_hash, set_main_chain_tx_hash, remove_action}
use shielder.Fx.Run.{
  zerohash, RunEnv, is_message, finish_message, drop_tx, send_main_chain_tx, finish_in_flight,
}
use shielder.Fx.Run.Scheduled.{Waits, last, front}

taken_off :
    (id j : ℕ) (ids rest : List ℕ)
    → (id == j) ≡ false
    → contains (ids ++ id ∷ rest) j ≡ true
    → contains (ids ++ rest) j ≡ true
taken_off id j [] rest other h = ground (arith, h, other)
taken_off id j (i ∷ ids) rest other h = ground (arith, taken_off id j ids rest other, h)

module _ {c : Curve} where
  pub record IsWaiting (env : RunEnv c) : Type 0 where
    pub once : HasKeysOnce (env.pending_actions.action_map)
    pub waits :
        (id : ℕ) (a : Action c) → get id (env.pending_actions.action_map) ≡ some a → Waits env id a

  -- It still waits, if its hash and its id's places are as they were.
  pub moved :
      (env e : RunEnv c) (j : ℕ) (b : Action c)
      → get_main_chain_tx_hash (e.pending_actions) j
        ≡ get_main_chain_tx_hash (env.pending_actions) j
      → (contains (env.shuttermint_messages) j ≡ true → contains (e.shuttermint_messages) j ≡ true)
      → (contains (env.main_chain_txs) j ≡ true → contains (e.main_chain_txs) j ≡ true)
      → (contains (env.in_flight_main_chain_txs) j ≡ true
          → contains (e.in_flight_main_chain_txs) j ≡ true)
      → Waits env j b
      → Waits e j b
  moved env e j b same ms ts fs h = elim (Bool-cases (is_message b)) [
    | inl message ↦ rw message (ms (rw message at h))
    | inr tx ↦
        rw (tx, same)
          (elim (Bool-cases (get_main_chain_tx_hash (env.pending_actions) j == zerohash)) [
            | inl unsent ↦ rw unsent (ts (rw (tx, unsent) at h))
            | inr sent ↦ rw sent (fs (rw (tx, sent) at h))
          ])
  ]

  -- An action is removed, and its id is taken off its channel.
  removed :
      (env e : RunEnv c) (id : ℕ)
      → e.pending_actions ≡ remove_action (env.pending_actions) id
      → ((j : ℕ)
          → (id == j) ≡ false
          → contains (env.shuttermint_messages) j ≡ true
          → contains (e.shuttermint_messages) j ≡ true)
      → ((j : ℕ)
          → (id == j) ≡ false
          → contains (env.main_chain_txs) j ≡ true
          → contains (e.main_chain_txs) j ≡ true)
      → ((j : ℕ)
          → (id == j) ≡ false
          → contains (env.in_flight_main_chain_txs) j ≡ true
          → contains (e.in_flight_main_chain_txs) j ≡ true)
      → IsWaiting env
      → IsWaiting e
  unfolding remove_action get_main_chain_tx_hash
  removed env e id p ms ts fs w = record {
    once = rw p (delete-HasKeysOnce id (env.pending_actions.action_map) w.once);
    waits = λ j b there. elim (Bool-cases (id == j)) [
      | inl same ↦ absurd (
          ground (
            arith,
            get-delete_self id (env.pending_actions.action_map) w.once,
            =ℕ_iff id j,
            rw p at there,
            same,
          ))
      | inr other ↦
          let before =
            sym (get-delete_other id j (env.pending_actions.action_map) other) ∙ (rw p at there) in
          let hash = get-delete_other id j (env.pending_actions.main_chain_tx_hashes) other in
          moved env e j b (rw p (ap (λ o. get_or_else o zerohash) hash)) (ms j other) (ts j other)
            (fs j other) (w.waits j b before)
    ];
  }

  pub message_done-IsWaiting :
      (env : RunEnv c) (id : ℕ) (rest : List ℕ)
      → env.shuttermint_messages ≡ id ∷ rest
      → IsWaiting env
      → IsWaiting (finish_message env id rest)
  unfolding finish_message
  message_done-IsWaiting env id rest h w =
      removed env (finish_message env id rest) id refl
        (λ j other p. ground (arith, rw h at p, other)) (λ j other p. p) (λ j other p. p) w

  pub tx_dropped-IsWaiting :
      (env : RunEnv c) (id : ℕ) (rest : List ℕ)
      → env.main_chain_txs ≡ id ∷ rest
      → IsWaiting env
      → IsWaiting (drop_tx env id rest)
  unfolding drop_tx
  tx_dropped-IsWaiting env id rest h w =
      removed env (drop_tx env id rest) id refl (λ j other p. p)
        (λ j other p. ground (arith, rw h at p, other)) (λ j other p. p) w

  pub mined-IsWaiting :
      (env : RunEnv c) (id : ℕ) (ids rest : List ℕ)
      → env.in_flight_main_chain_txs ≡ ids ++ id ∷ rest
      → IsWaiting env
      → IsWaiting (finish_in_flight env id (ids ++ rest))
  unfolding finish_in_flight
  mined-IsWaiting env id ids rest h w =
      removed env (finish_in_flight env id (ids ++ rest)) id refl (λ j other p. p) (λ j other p. p)
        (λ j other p. taken_off id j ids rest other (rw h at p)) w

  pub tx_sent-IsWaiting :
      (env : RunEnv c) (id : ℕ) (hash : List ℕ) (rest : List ℕ)
      → env.main_chain_txs ≡ id ∷ rest
      → (hash == zerohash) ≡ false
      → IsWaiting env
      → IsWaiting (send_main_chain_tx env id hash rest)
  unfolding send_main_chain_tx set_main_chain_tx_hash get_main_chain_tx_hash
  tx_sent-IsWaiting env id hash rest h some_hash w = record {
    once = w.once;
    waits = λ j b there. elim (Bool-cases (id == j)) [
      | inl same ↦
          let hashes = env.pending_actions.main_chain_tx_hashes in
          let stored : get j (put id hash hashes) ≡ some hash =
            get-put id j hash hashes ∙ rw same refl in
          elim (Bool-cases (is_message b)) [
            | inl message ↦ rw message (rw message at (w.waits j b there))
            | inr tx ↦
                rw (tx, stored)
                  (rw some_hash (
                    subst (λ k. contains (env.in_flight_main_chain_txs ++ id ∷ []) k ≡ true)
                      ((=ℕ_iff id j).0 same) (last id (env.in_flight_main_chain_txs))))
          ]
      | inr other ↦
          let hashes = env.pending_actions.main_chain_tx_hashes in
          let kept : get j (put id hash hashes) ≡ get j hashes =
            get-put id j hash hashes ∙ rw other refl in
          moved env (send_main_chain_tx env id hash rest) j b
            (ap (λ o. get_or_else o zerohash) kept) (λ p. p) (λ p. ground (arith, rw h at p, other))
            (front j id (env.in_flight_main_chain_txs)) (w.waits j b there)
    ];
  }
