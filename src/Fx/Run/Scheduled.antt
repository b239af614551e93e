-- ===== src/Fx/Run/Scheduled.antt =====
-- What is scheduled waits in the channel of its kind, and what waited before still does (runenv.go).
use shielder.Base.{
  ◌≡◌, ◌∙◌, ◌∷◌, ◌++◌, ◌==◌, if◌then◌else◌, ℕ, refl, sym, inl, inr, true, Option, some, List, [],
  arith, Bool-cases, Option-cases, =ℕ_iff, contains, get, Returns, Returns-bind, Returns-map,
  nat_eq, list_eq,
}
use mathlib.Core.Path.{subst}
use shielder.Curve.{Curve}
use shielder.Decide.{fold}
use shielder.Fx.{Action}
use shielder.Fx.Pending.{get_main_chain_tx_hash, get_action}
use shielder.Fx.Run.{zerohash, RunEnv, is_message, schedule_action}

pub front : (j id : ℕ) (ids : List ℕ) → contains ids j ≡ true → contains (ids ++ id ∷ []) j ≡ true
front j id [] h = cc
front j id (i ∷ ids) h = ground (arith, front j id ids, h)

pub last : (id : ℕ) (ids : List ℕ) → contains (ids ++ id ∷ []) id ≡ true
last id [] = ground arith
last id (i ∷ ids) = ground (arith, last id ids)

pub some_injective : {A : Type 0} {a b : A} → ◌≡◌ {A = Option A} (some a) (some b) → a ≡ b
some_injective h = cc

module _ {c : Curve} where
  -- The channel of an action: its kind's, and, if its transaction has been sent, that of those in flight.
  abbrev pub channel_of : RunEnv c → ℕ → Action c → List ℕ
  channel_of env id a =
      if is_message a
      then env.shuttermint_messages
      else if get_main_chain_tx_hash (env.pending_actions) id == zerohash
      then env.main_chain_txs
      else env.in_flight_main_chain_txs

  abbrev pub Waits : RunEnv c → ℕ → Action c → Type 0
  Waits env id a = contains (channel_of env id a) id ≡ true

  -- The channels of the second hold what those of the first hold, for the same pending actions.
  pub record Grown (env e : RunEnv c) : Type 0 where
    pub same : e.pending_actions ≡ env.pending_actions
    pub messages :
        (j : ℕ)
        → contains (env.shuttermint_messages) j ≡ true
        → contains (e.shuttermint_messages) j ≡ true
    pub txs :
        (j : ℕ) → contains (env.main_chain_txs) j ≡ true → contains (e.main_chain_txs) j ≡ true
    pub in_flight :
        (j : ℕ)
        → contains (env.in_flight_main_chain_txs) j ≡ true
        → contains (e.in_flight_main_chain_txs) j ≡ true

  pub Grown-Waits :
      {env e : RunEnv c} → Grown env e → (j : ℕ) (b : Action c) → Waits env j b → Waits e j b
  Grown-Waits {env} {e} g j b h = elim (Bool-cases (is_message b)) [
    | inl message ↦ rw message (g.messages j (rw message at h))
    | inr tx ↦ rw tx (
        rw (g.same)
          (elim (Bool-cases (get_main_chain_tx_hash (env.pending_actions) j == zerohash)) [
            | inl unsent ↦ rw unsent (g.txs j (rw (tx, unsent) at h))
            | inr sent ↦ rw sent (g.in_flight j (rw (tx, sent) at h))
          ]))
  ]

  Grown-refl : (env : RunEnv c) → Grown env env
  Grown-refl env = record { same = refl; messages = λ j h. h; txs = λ j h. h; in_flight = λ j h. h }

  Grown-trans : {d e f : RunEnv c} → Grown d e → Grown e f → Grown d f
  Grown-trans g h = record {
    same = h.same ∙ g.same;
    messages = λ j p. h.messages j (g.messages j p);
    txs = λ j p. h.txs j (g.txs j p);
    in_flight = λ j p. h.in_flight j (g.in_flight j p);
  }

  -- What scheduling an action leaves, if the action is there.
  abbrev Scheduled : RunEnv c → ℕ → RunEnv c → Type 0
  Scheduled env id e =
      Grown env e
      × ((a : Action c) → get id (env.pending_actions.action_map) ≡ some a → Waits e id a)

  chosen :
      (env : RunEnv c) (id : ℕ) (a : Action c)
      → get id (env.pending_actions.action_map) ≡ some a
      → Returns (λ e. Grown env e × Waits e id a) (schedule_action env id)
  unfolding schedule_action get_action
  chosen env id a h =
      rw (h, schedule_action)
        (elim (Bool-cases (is_message a)) [
          | inl message ↦ rw message (
            record {
              same = refl;
              messages = λ j p. front j id (env.shuttermint_messages) p;
              txs = λ j p. p;
              in_flight = λ j p. p;
            },
            last id (env.shuttermint_messages),
          )
          | inr tx ↦
              rw tx
                (elim (Bool-cases (get_main_chain_tx_hash (env.pending_actions) id == zerohash)) [
                  | inl unsent ↦ rw unsent (
                    record {
                      same = refl;
                      messages = λ j p. p;
                      txs = λ j p. front j id (env.main_chain_txs) p;
                      in_flight = λ j p. p;
                    },
                    rw unsent (last id (env.main_chain_txs)),
                  )
                  | inr sent ↦ rw sent (
                    record {
                      same = refl;
                      messages = λ j p. p;
                      txs = λ j p. p;
                      in_flight = λ j p. front j id (env.in_flight_main_chain_txs) p;
                    },
                    rw sent (last id (env.in_flight_main_chain_txs)),
                  )
                ])
        ])

  schedule_action-Scheduled :
      (env : RunEnv c) (id : ℕ) → Returns (Scheduled env id) (schedule_action env id)
  unfolding schedule_action get_action
  schedule_action-Scheduled env id = elim (Option-cases (get id (env.pending_actions.action_map))) [
    | inl missing ↦ rw (missing, schedule_action) tt
    | inr (a, there) ↦
        Returns-map (λ e p. (p.0, λ b q. subst (Waits e id) (some_injective (sym there ∙ q)) p.1))
          (schedule_action env id) (chosen env id a there)
  ]

  pub schedule_all :
      (ids : List ℕ) (env : RunEnv c)
      → Returns
          (λ e.
            Grown env e
            × ((id : ℕ) (a : Action c)
                → contains ids id ≡ true
                → get id (env.pending_actions.action_map) ≡ some a
                → Waits e id a))
          (fold schedule_action env ids)
  schedule_all [] env = (Grown-refl env, λ id a h p. cc)
  schedule_all (i ∷ ids) env =
      Returns-bind (Scheduled env i) _ (schedule_action env i) (λ e. fold schedule_action e ids)
        (schedule_action-Scheduled env i)
        (λ e s.
          Returns-map
            (λ f t. (
              Grown-trans s.0 t.0,
              λ id a h p. elim (Bool-cases (i == id)) [
                | inl same ↦ Grown-Waits t.0 id a (
                    subst (λ k. Waits e k a) ((=ℕ_iff i id).0 same)
                      (s.1 a (
                        subst (λ k. get k (env.pending_actions.action_map) ≡ some a)
                          (sym ((=ℕ_iff i id).0 same)) p)))
                | inr other ↦ t.1 id a (rw other at h) (rw (s.0.same) p)
              ],
            ))
            (fold schedule_action e ids) (schedule_all ids e))
