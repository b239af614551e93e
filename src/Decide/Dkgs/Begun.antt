-- ===== src/Decide/Dkgs/Begun.antt =====
-- Beginning a phase of a key generation, and sending its evaluations, are steps of the key
-- generation (keyper/decide.go).
use shielder.Base.{
  ◌≡◌, ◌==◌, if◌then◌else◌, inl, inr, Bool, true, false, not, List, [], ltb, Bool-cases, length, ok,
  err, or_err, Returns, Returns-self, Returns-bind, Returns-if, nat_eq,
}
use shielder.Panic.{fatal}
use shielder.External.{External}
use shielder.PureDkg.{phase_number, PolyEvalMsg, Phase, dealing, accusing, apologizing, finalized}
use shielder.PureDkg.Phases.{
  start_phase1_dealing, start_phase2_accusing, start_phase3_apologizing, finalize,
}
use shielder.PureDkg.Outcome.{compute_result}
use shielder.PureDkg.{set_phase}
use shielder.PureDkg.Steps.{accusing_begun, apologizing_begun}
use shielder.PureDkg.Steps.Step.{dealt, advanced}
use shielder.Decide.{Libraries, Dkg, Decider, has_phase}
use shielder.Decide.Dkgs.{
  accusation_message, apology_message, sendable, send_poly_evals, begin_dealing, begin_accusing,
  begin_apologizing, dkg_finalize,
}
use shielder.Decide.Dkgs.Kept.{Follows, goes_on}

in_both {ℓ κ} :
    {A : Type ℓ} (P : A → Type κ) (b : Bool) (s t : A) → P s → P t → P (if b then s else t)
in_both P true s t p q = p
in_both P false s t p q = q

module _ {x : External} where
  -- The decider and the key generation that a step returns.
  abbrev pub GoesOn : Dkg x → Decider x × Dkg x → Type 0
  GoesOn old p = Follows old (p.1)

  sends_on :
      {a b : Dkg x} (ms : List PolyEvalMsg)
      → Follows a b
      → Follows a (record b { outgoing_poly_eval_msgs = ms })
  sends_on ms f = record { steps = f.steps; same_eon = f.same_eon; same_keypers = f.same_keypers }

module _ {x : External} (lib : Libraries x) (old : Dkg x) (d : Decider x) (dkg : Dkg x)
    (f : Follows old dkg) where
  pub begin_dealing-Follows : (next : Phase) → Returns (GoesOn old) (begin_dealing lib d dkg next)
  unfolding begin_dealing
  begin_dealing-Follows next =
      let m = start_phase1_dealing (dkg.pure) (lib.random_polynomial (dkg.eon)) in
      Returns-bind (λ r. m ≡ ok r) (GoesOn old) m _ (Returns-self m)
        (λ r e.
          let g = goes_on f (dealt _ r.1 e) in
          let o = or_err r.1 fatal in
          Returns-bind (λ b. o ≡ ok b) (GoesOn old) o _ (Returns-self o)
            (λ b _. in_both (GoesOn old) (not (has_phase next dealing)) _ _ g (sends_on b.1 g)))

  pub begin_accusing-Follows : (next : Phase) → Returns (GoesOn old) (begin_accusing lib d dkg next)
  unfolding begin_accusing
  begin_accusing-Follows next =
      Returns-bind (λ r. set_phase (dkg.pure) accusing ≡ ok r.0) (GoesOn old)
        (start_phase2_accusing (dkg.pure)) _ (accusing_begun (dkg.pure))
        (λ r e.
          let g = goes_on f (advanced accusing e) in
          let started = record dkg { pure = r.0 } in
          let m = accusation_message lib started r.1 in
          Returns-if (GoesOn old) (not (has_phase next accusing)) (ok (d, started)) _ g
            (Returns-bind (λ a. m ≡ ok a) (GoesOn old) m _ (Returns-self m) (λ _ _. g)))

  pub begin_apologizing-Follows :
      (next : Phase) → Returns (GoesOn old) (begin_apologizing lib d dkg next)
  unfolding begin_apologizing
  begin_apologizing-Follows next =
      Returns-bind (λ r. set_phase (dkg.pure) apologizing ≡ ok r.0) (GoesOn old)
        (start_phase3_apologizing (dkg.pure)) _ (apologizing_begun (dkg.pure))
        (λ r e.
          let g = goes_on f (advanced apologizing e) in
          let started = record dkg { pure = r.0 } in
          let m = apology_message lib started r.1 in
          Returns-if (GoesOn old) (not (has_phase next apologizing)) (ok (d, started)) _ g
            (Returns-bind (λ a. m ≡ ok a) (GoesOn old) m _ (Returns-self m) (λ _ _. g)))

  pub dkg_finalize-Follows : Returns (GoesOn old) (dkg_finalize d dkg)
  unfolding dkg_finalize finalize
  dkg_finalize-Follows =
      let m = set_phase (dkg.pure) finalized in
      Returns-bind (λ p. m ≡ ok p) (GoesOn old) m _ (Returns-self m)
        (λ p e.
          let g = goes_on f (advanced finalized e) in
          let r = compute_result p in
          Returns-bind (λ a. r ≡ ok a) (GoesOn old) r _ (Returns-self r)
            (elim [ err _ ↦ λ _. g | ok _ ↦ λ _. g ]))

  pub send_poly_evals-Follows : Returns (GoesOn old) (send_poly_evals lib d dkg)
  unfolding send_poly_evals
  send_poly_evals-Follows =
      let r = sendable lib d dkg (dkg.outgoing_poly_eval_msgs) in
      elim (Bool-cases (length (dkg.outgoing_poly_eval_msgs) == 0)) [
        | inl empty ↦ rw empty f
        | inr some_left ↦
            rw some_left
              (elim (Bool-cases (ltb (phase_number dealing) (phase_number (dkg.pure.phase)))) [
                | inl late ↦ rw late (sends_on [] f)
                | inr on_time ↦ rw on_time (
                    Returns-bind (λ a. r ≡ ok a) (GoesOn old) r _ (Returns-self r)
                      (λ a _. elim (Bool-cases (ltb 0 (length a.1.0))) [
                        | inl h ↦ rw h (sends_on a.0 f)
                        | inr h ↦ rw h f
                      ]))
              ])
      ]
