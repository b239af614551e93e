-- ===== src/Keyper/Restarts.antt =====
-- Whenever the keyper stops and starts again, each action that it decided is added once.
use shielder.Base.{
  ◌+◌, ◌<◌, ◌≡◌, ◌∙◌, ◌≢◌, ◌⊎◌, ◌∷◌, ◌++◌, ◌==◌, ℕ, zero, suc, refl, sym, ap, inl, inr, some, List,
  [], arith, Bool-cases, length, get_elem?, length-append, All, Map, put, word_mod, add64, ok, drop,
  All-map, All-put, All-delete, ok_injective, nat_eq,
}
use mathlib.Core.Path.{subst}
use shielder.Fx.Pending.Again.{with_actions, add_actions_fresh, add_actions_again}
use shielder.Fx.Pending.{
  PendingActions, new_pending_actions, put_actions, add_actions, remove_action,
}
use shielder.Keyper.{
  Keyper, waiting, to_run, added, new_keyper, decide_and_save, run_actions, count_actions, restart,
  Step, decided, ran, counted, removed, restarted, Run, start, next,
}

module _ {A : Type 0} where
  -- The action with an id is the one that was decided at that place.
  pub IsDecided : List A → ℕ × A → Type 0
  IsDecided ds p = get_elem? ds p.0 ≡ some p.1

  get_elem?-append :
      (ds es : List A) (i : ℕ) (a : A) → get_elem? ds i ≡ some a → get_elem? (ds ++ es) i ≡ some a
  get_elem?-append [] es i a h = cc
  get_elem?-append (d ∷ ds) es zero a h = h
  get_elem?-append (d ∷ ds) es (suc i) a h = get_elem?-append ds es i a h

  get_elem?-drop :
      (n : ℕ) (ds rest : List A) (a : A)
      → drop n ds ≡ a ∷ rest
      → (get_elem? ds n ≡ some a) × (drop (suc n) ds ≡ rest)
  get_elem?-drop zero [] rest a h = cc
  get_elem?-drop zero (d ∷ ds) rest a h = (cc, cc)
  get_elem?-drop (suc n) [] rest a h = cc
  get_elem?-drop (suc n) (d ∷ ds) rest a h = get_elem?-drop n ds rest a h

  drop-length : (ds es : List A) → drop (length ds) (ds ++ es) ≡ es
  drop-length [] es = refl
  drop-length (d ∷ ds) es = drop-length ds es

  put_actions-IsDecided :
      (ds actions : List A) (id : ℕ) (m : Map ℕ A)
      → drop id ds ≡ actions
      → id + length actions < word_mod
      → All (IsDecided ds) m
      → All (IsDecided ds) (put_actions id actions m)
  unfolding put_actions IsDecided
  put_actions-IsDecided ds [] id m from small h = h
  put_actions-IsDecided ds (a ∷ rest) id m from small h =
      let here = get_elem?-drop id ds rest a from in
      let later : add64 id 1 ≡ suc id = omega (arith, small) in
      rw later (
        put_actions-IsDecided ds rest (suc id) (put id a m) here.1 (omega (arith, small))
          (All-put (IsDecided ds) id a m h here.0))

  -- Where the loop is, with what then holds of its counters; `n` actions have been decided.
  data IsAt (k : Keyper A) (n : ℕ) : Type 0 where
    at_waiting :
        k.stage ≡ waiting
        → k.actions ≡ []
        → k.action_counter ≡ n
        → k.pending.current_id ≡ n
        → IsAt k n
    at_to_run :
        k.stage ≡ to_run
        → k.actions ≡ k.saved_actions
        → k.action_counter ≡ k.saved_counter
        → IsAt k n
    at_added :
        k.stage ≡ added
        → k.actions ≡ k.saved_actions
        → k.action_counter ≡ k.saved_counter
        → k.pending.current_id ≡ n
        → IsAt k n

  -- What holds at every time; `ds` are the actions that have been decided.
  record IsConsistent (k : Keyper A) (ds : List A) : Type 0 where
    small : length ds < word_mod
    saved : k.saved_counter + length (k.saved_actions) ≡ length ds
    saved_from : drop (k.saved_counter) ds ≡ k.saved_actions
    ids : All (IsDecided ds) (k.pending.action_map)
    added_or_not : (k.pending.current_id ≡ k.saved_counter) ⊎ (k.pending.current_id ≡ length ds)
    place : IsAt k (length ds)

  decided-IsConsistent :
      (k k' : Keyper A) (ds actions : List A)
      → k.stage ≡ waiting
      → decide_and_save k actions ≡ ok k'
      → length (ds ++ actions) < word_mod
      → IsConsistent k ds
      → IsConsistent k' (ds ++ actions)
  unfolding decide_and_save IsDecided
  decided-IsConsistent k k' ds actions st e small c = elim (c.place) [
    | at_to_run s a n ↦ absurd (cc)
    | at_added s a n p ↦ absurd (cc)
    | at_waiting s a n p ↦
        subst (λ j. IsConsistent j (ds ++ actions)) (ok_injective (rw a at e))
          (record {
            small = small;
            saved = omega (arith, n, length-append ds actions);
            saved_from = rw n (drop-length ds actions);
            ids =
                All-map (λ q h. get_elem?-append ds actions q.0 q.1 h) (k.pending.action_map) c.ids;
            added_or_not = inl (p ∙ sym n);
            place = at_to_run refl refl refl;
          })
  ]

  -- Actions that are to run are added, or have been added before.
  adds :
      (k : Keyper A) (ds : List A)
      → k.actions ≡ k.saved_actions
      → k.action_counter ≡ k.saved_counter
      → 0 < length (k.actions)
      → IsConsistent k ds
      → (p : PendingActions A) × (q : ℕ × ℕ) × (add_actions
            (k.pending)
            (k.action_counter)
            (k.actions)
          ≡ ok (p, q))
        × (p.current_id ≡ length ds)
        × All (IsDecided ds) p.action_map
  unfolding with_actions
  adds k ds a n some_action c =
      let end : k.action_counter + length (k.actions) ≡ length ds =
        omega (arith, n, ap length a, c.saved) in
      let bound : k.action_counter + length (k.actions) < word_mod = omega (arith, end, c.small) in
      let from : drop (k.action_counter) ds ≡ k.actions = rw n (c.saved_from ∙ sym a) in
      let ids =
        put_actions-IsDecided ds (k.actions) (k.action_counter) (k.pending.action_map) from bound
          c.ids in
      elim (c.added_or_not) [
        | inl same ↦ (
          with_actions (k.pending) (k.action_counter) (k.actions),
          (k.action_counter, k.action_counter + length (k.actions)),
          add_actions_fresh (k.pending) (k.action_counter) (k.actions) bound (same ∙ sym n)
              some_action,
          end,
          ids,
        )
        | inr done ↦ (
          k.pending,
          (k.pending.current_id, k.pending.current_id),
          add_actions_again (k.pending) (k.action_counter) (k.actions) bound (done ∙ sym end),
          done,
          c.ids,
        )
      ]

  -- What is to run, runs without a panic, and then all that was decided has been added.
  runs :
      (k : Keyper A) (ds : List A)
      → k.stage ≡ to_run
      → IsConsistent k ds
      → (k' : Keyper A) × (run_actions k ≡ ok k') × IsConsistent k' ds
  unfolding run_actions
  runs k ds st c = elim (c.place) [
    | at_waiting s a n p ↦ absurd (cc)
    | at_added s a n p ↦ absurd (cc)
    | at_to_run s a n ↦ elim (Bool-cases (length (k.actions) == 0)) [
      | inl idle ↦ (
        record k { stage = added },
        rw idle refl,
        record {
          small = c.small;
          saved = c.saved;
          saved_from = c.saved_from;
          ids = c.ids;
          added_or_not = c.added_or_not;
          place = at_added refl a n (elim (c.added_or_not) [
            | inl same ↦ ground (arith, same, c.saved, ap length a, idle)
            | inr done ↦ done
          ]);
        },
      )
      | inr busy ↦
          let (p, q, sum, end, ids) = adds k ds a n (ground (arith, busy)) c in
          (
            record k { stage = added; pending = p },
            rw (busy, sum) refl,
            record {
              small = c.small;
              saved = c.saved;
              saved_from = c.saved_from;
              ids = ids;
              added_or_not = inr end;
              place = at_added refl a n end;
            },
          )
    ]
  ]

  ran-IsConsistent :
      (k k' : Keyper A) (ds : List A)
      → k.stage ≡ to_run
      → run_actions k ≡ ok k'
      → IsConsistent k ds
      → IsConsistent k' ds
  ran-IsConsistent k k' ds st e c =
      let (j, runs_to_j, consistent) = runs k ds st c in
      subst (λ i. IsConsistent i ds) (ok_injective (sym runs_to_j ∙ e)) consistent

  counted-IsConsistent :
      (k : Keyper A) (ds : List A)
      → k.stage ≡ added
      → IsConsistent k ds
      → IsConsistent (count_actions k) ds
  unfolding count_actions
  counted-IsConsistent k ds st c = record {
    small = c.small;
    saved = c.saved;
    saved_from = c.saved_from;
    ids = c.ids;
    added_or_not = c.added_or_not;
    place = elim (c.place) [
      | at_waiting s a n p ↦ absurd (cc)
      | at_to_run s a n ↦ absurd (cc)
      | at_added s a n p ↦ at_waiting refl refl (omega (arith, n, ap length a, c.saved, c.small)) p
    ];
  }

  removed-IsConsistent :
      (k : Keyper A) (ds : List A) (id : ℕ)
      → IsConsistent k ds
      → IsConsistent (record k { pending = remove_action (k.pending) id }) ds
  unfolding remove_action
  removed-IsConsistent k ds id c = record {
    small = c.small;
    saved = c.saved;
    saved_from = c.saved_from;
    ids = All-delete (IsDecided ds) id (k.pending.action_map) c.ids;
    added_or_not = c.added_or_not;
    place = elim (c.place) [
      | at_waiting s a n p ↦ at_waiting s a n p
      | at_to_run s a n ↦ at_to_run s a n
      | at_added s a n p ↦ at_added s a n p
    ];
  }

  restarted-IsConsistent :
      (k : Keyper A) (ds : List A) → IsConsistent k ds → IsConsistent (restart k) ds
  unfolding restart
  restarted-IsConsistent k ds c = record {
    small = c.small;
    saved = c.saved;
    saved_from = c.saved_from;
    ids = c.ids;
    added_or_not = c.added_or_not;
    place = at_to_run refl refl refl;
  }

  Step-IsConsistent :
      {k k' : Keyper A} {ds ds' : List A}
      → Step k ds k' ds'
      → IsConsistent k ds
      → IsConsistent k' ds'
  Step-IsConsistent (decided actions k' st e small) c =
      decided-IsConsistent _ k' _ actions st e small c
  Step-IsConsistent (ran k' st e) c = ran-IsConsistent _ k' _ st e c
  Step-IsConsistent (counted st) c = counted-IsConsistent _ _ st c
  Step-IsConsistent (removed id) c = removed-IsConsistent _ _ id c
  Step-IsConsistent restarted c = restarted-IsConsistent _ _ c

  new_keyper-IsConsistent : IsConsistent new_keyper []
  unfolding new_keyper new_pending_actions
  new_keyper-IsConsistent = record {
    small = omega arith;
    saved = refl;
    saved_from = refl;
    ids = tt;
    added_or_not = inl refl;
    place = at_waiting refl refl refl refl;
  }

  Run-IsConsistent : {k : Keyper A} {ds : List A} → Run k ds → IsConsistent k ds
  Run-IsConsistent start = new_keyper-IsConsistent
  Run-IsConsistent (next r s) = Step-IsConsistent s (Run-IsConsistent r)

  all_added : (k : Keyper A) (n : ℕ) → IsAt k n → k.stage ≢ to_run → k.pending.current_id ≡ n
  all_added k n (at_waiting s a c p) h = p
  all_added k n (at_to_run s a c) h = absurd (h s)
  all_added k n (at_added s a c p) h = p

  decides :
      (k : Keyper A) (n : ℕ) (actions : List A)
      → IsAt k n
      → k.stage ≡ waiting
      → (k' : Keyper A) × (decide_and_save k actions ≡ ok k')
  unfolding decide_and_save
  decides k n actions (at_waiting s a c p) h = (
    record k {
      stage = to_run;
      actions = actions;
      saved_actions = actions;
      saved_counter = k.action_counter;
    },
    rw a refl,
  )
  decides k n actions (at_to_run s a c) h = absurd (cc)
  decides k n actions (at_added s a c p) h = absurd (cc)

  -- Over any run of a keyper's loop that begins with no state, whatever it decides and however
  -- often it stops and starts again from what it has saved: each pending action is the one that
  -- was decided at the place of its id; once a step's actions have been run, as many ids are used
  -- as actions were decided; and neither running the actions nor saving the next decision panics.
  pub actions_added_once :
      {k : Keyper A} {ds : List A}
      → Run k ds
      → All (λ p. get_elem? ds p.0 ≡ some p.1) (k.pending.action_map)
        × (k.stage ≢ to_run → k.pending.current_id ≡ length ds)
        × (k.stage ≡ to_run → (k' : Keyper A) × (run_actions k ≡ ok k'))
        × (k.stage ≡ waiting
            → (actions : List A) → (k' : Keyper A) × (decide_and_save k actions ≡ ok k'))
  unfolding IsDecided
  actions_added_once {k} {ds} r =
      let c = Run-IsConsistent r in
      (
        c.ids,
        all_added k (length ds) c.place,
        λ st. (let (k', e, _) = runs k ds st c in (k', e)),
        λ st actions. decides k (length ds) actions c.place st,
      )
