-- ===== src/Decide/Execution/Ahead.antt =====
-- Which half steps a keyper executes at once, and how far ahead of the main chain (keyper/decide.go).
use shielder.Base.{
  ◌+◌, ◌≤◌, ◌<◌, ◌≡◌, ◌∙◌, ◌∷◌, ◌++◌, ℕ, zero, suc, refl, sym, ap, inl, inr, true, Option, none,
  some, List, [], arith, Bool-cases, Option-cases, length, is_some, ok, Result-cases, ok_injective,
}
use mathlib.Core.Path.{subst, ap, sym, ◌∙◌}
use mathlib.Core.List.{append_assoc, append-nil}
use shielder.External.{External}
use shielder.Contract.{is_active, batch_index}
use shielder.MainChain.{current_config}
use shielder.Fx.{Action}
use shielder.Decide.{KeyperConfig, max_parallel_half_steps, Decider, add_action}
use shielder.Decide.Execution.{
  get_num_half_steps_to_execute, still_pending, cipher_batch_action, plain_batch_action,
  execute_with, maybe_execute_half_step, execute_from, maybe_execute_batch,
}

-- The last of so many half steps from one on.
abbrev pub last_of : ℕ → ℕ → Option ℕ → Option ℕ
last_of half_step zero before = before
last_of half_step (suc n) before = some (half_step + n)

last_of-suc : (s n : ℕ) → last_of (s + 1) n (some s) ≡ some (s + n)
last_of-suc s zero = ap some (omega arith)
last_of-suc s (suc n) = ap some (omega arith)

at_most : (next b : ℕ) → get_num_half_steps_to_execute next b ≤ max_parallel_half_steps
unfolding get_num_half_steps_to_execute
at_most next b = ground arith

module _ (kc : KeyperConfig) {x : External} where
  -- The actions are those for the half steps from one on, without a gap.
  pub data Executes (d : Decider x) : ℕ → List (Action x.curve) → Type 0 where
    done : {half_step : ℕ} → Executes d half_step []
    then_more :
        {half_step : ℕ} {a : Action x.curve} {rest : List (Action x.curve)}
        → maybe_execute_half_step kc d half_step ≡ ok (some a)
        → Executes d (half_step + 1) rest
        → Executes d half_step (a ∷ rest)

  with_pending : Decider x → List (Action x.curve) → Option ℕ → Decider x
  with_pending d actions p = record d {
    actions = actions;
    state = record (d.state) { pending_half_step = p };
  }

  same_action :
      (d : Decider x) (actions : List (Action x.curve)) (p : Option ℕ) (s : ℕ)
      → maybe_execute_half_step kc (with_pending d actions p) s ≡ maybe_execute_half_step kc d s
  unfolding maybe_execute_half_step execute_with cipher_batch_action plain_batch_action with_pending
  same_action d actions p s = refl

  Executes-same :
      (d : Decider x) (actions : List (Action x.curve)) (p : Option ℕ) {s : ℕ}
      {rest : List (Action x.curve)}
      → Executes (with_pending d actions p) s rest
      → Executes d s rest
  Executes-same d actions p done = done
  Executes-same d actions p (then_more h e) =
      then_more (sym (same_action d actions p _) ∙ h) (Executes-same d actions p e)

  -- What the loop has done from a half step on, for at most so many.
  pub record Ahead (d d' : Decider x) (half_step n : ℕ) : Type 0 where
    pub executed : List (Action x.curve)
    pub added : d'.actions ≡ d.actions ++ executed
    pub in_order : Executes d half_step executed
    pub bounded : length executed ≤ n
    pub remembered :
        d'.state.pending_half_step ≡ last_of half_step (length executed) (d.state.pending_half_step)

  idle-Ahead : (d : Decider x) (half_step n : ℕ) → Ahead d d half_step n
  idle-Ahead d half_step n = record {
    executed = [];
    added = sym (append-nil (d.actions));
    in_order = done;
    bounded = omega arith;
    remembered = refl;
  }

  one_more :
      (d d' : Decider x) (a : Action x.curve) (s n : ℕ)
      → maybe_execute_half_step kc d s ≡ ok (some a)
      → Ahead (with_pending d (d.actions ++ a ∷ []) (some s)) d' (s + 1) n
      → Ahead d d' s (suc n)
  unfolding with_pending
  one_more d d' a s n h r = record {
    executed = a ∷ r.executed;
    added = r.added ∙ append_assoc (d.actions) (a ∷ []) (r.executed);
    in_order = then_more h (Executes-same d (d.actions ++ a ∷ []) (some s) r.in_order);
    bounded = omega (arith, r.bounded);
    remembered = r.remembered ∙ last_of-suc s (length (r.executed));
  }

  execute_from-Ahead :
      (n : ℕ) (d d' : Decider x) (s : ℕ) → execute_from kc d s n ≡ ok d' → Ahead d d' s n
  unfolding execute_from add_action with_pending
  execute_from-Ahead zero d d' s h = subst (λ e. Ahead d e s 0) (ok_injective h) (idle-Ahead d s 0)
  execute_from-Ahead (suc n) d d' s h = elim (Result-cases (maybe_execute_half_step kc d s)) [
    | inr (e, f) ↦ absurd (ground (arith, f, h))
    | inl (none, f) ↦
        subst (λ e. Ahead d e s (suc n)) (ok_injective (rw (f, execute_from) at h))
          (idle-Ahead d s (suc n))
    | inl (some a, f) ↦ one_more d d' a s n f (
        execute_from-Ahead n (with_pending d (d.actions ++ a ∷ []) (some s)) d' (s + 1)
          (rw (f, execute_from) at h))
  ]

  -- A step of the decider over the batches that it may execute.
  pub record Cautious (d d' : Decider x) : Type 0 where
    pub executed : List (Action x.curve)
    pub added : d'.actions ≡ d.actions ++ executed
    pub in_order : Executes d (d.main_chain.num_execution_half_steps) executed
    pub few : length executed ≤ max_parallel_half_steps
    pub waits :
        is_some (still_pending (d.state.pending_half_step) (d.main_chain.num_execution_half_steps))
          ≡ true
        → executed ≡ []
    pub remembered :
        0 < length executed
        → d'.state.pending_half_step
          ≡ last_of (d.main_chain.num_execution_half_steps) (length executed) none

  idle : (d : Decider x) (p : Option ℕ) → Cautious d (with_pending d (d.actions) p)
  unfolding with_pending
  idle d p = record {
    executed = [];
    added = sym (append-nil (d.actions));
    in_order = done;
    few = omega arith;
    waits = λ h. refl;
    remembered = λ h. absurd (omega (arith, h));
  }

  free :
      (d d' : Decider x) (b : ℕ)
      → still_pending (d.state.pending_half_step) (d.main_chain.num_execution_half_steps) ≡ none
      → Ahead
          (with_pending d (d.actions) none)
          d'
          (d.main_chain.num_execution_half_steps)
          (get_num_half_steps_to_execute (d.main_chain.num_execution_half_steps) b)
      → Cautious d d'
  unfolding with_pending
  free d d' b e r = record {
    executed = r.executed;
    added = r.added;
    in_order = Executes-same d (d.actions) none r.in_order;
    few = omega (arith, r.bounded, at_most (d.main_chain.num_execution_half_steps) b);
    waits = λ h. absurd (ground (arith, e, h));
    remembered = λ h. r.remembered;
  }

  -- When `maybeExecuteBatch` returns, it has added the actions of at most ten half steps, those
  -- from the next one of the main chain on without a gap, each as `maybeExecuteHalfStep` returns
  -- it; none while a half step that is not behind the next one is pending; and if it has added
  -- any, the last of the half steps is remembered as pending.
  pub maybe_execute_batch-Cautious :
      (d d' : Decider x) → maybe_execute_batch kc d ≡ ok d' → Cautious d d'
  unfolding maybe_execute_batch with_pending
  maybe_execute_batch-Cautious d d' h =
      let next = d.main_chain.num_execution_half_steps in
      let pending = still_pending (d.state.pending_half_step) next in
      elim (Result-cases (current_config (d.main_chain))) [
        | inr (e, f) ↦ absurd (ground (arith, f, h))
        | inl (config, f) ↦ elim (Bool-cases (is_active config)) [
          | inr inactive ↦
              subst (Cautious d) (ok_injective (rw (f, inactive, maybe_execute_batch) at h))
                (idle d (d.state.pending_half_step))
          | inl active ↦ elim (Result-cases (batch_index config (d.main_chain.current_block))) [
            | inr (e, g) ↦ absurd (ground (arith, f, active, g, h))
            | inl (b, g) ↦ elim (Option-cases pending) [
              | inr (p, q) ↦
                  subst (Cautious d) (ok_injective (rw (f, active, g, q, maybe_execute_batch) at h))
                    (idle d (some p))
              | inl q ↦ free d d' b q (
                  execute_from-Ahead (get_num_half_steps_to_execute next b)
                    (with_pending d (d.actions) none) d' next
                    (rw (f, active, g, q, maybe_execute_batch) at h))
            ]
          ]
        ]
      ]
