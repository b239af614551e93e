-- ===== src/Decide/Dkgs/Followed.antt =====
-- Over `handleDKGs`, each key generation goes on from where it was: the decider only feeds it messages, and
-- begins its phases.
use shielder.Base.{
  ◌≡◌, ◌∷◌, ◌++◌, inl, inr, Bool, true, false, List, [], Bool-cases, add64, Result, ok, or_err,
  Returns, Returns-self, Returns-eq, Returns-bind,
}
use mathlib.Core.Path.{subst}
use mathlib.Core.List.{append_assoc, append-nil}
use shielder.Panic.{Panic, not_found}
use shielder.External.{External}
use shielder.PureDkg.{off, dealing, accusing, apologizing, finalized}
use shielder.PureDkg.Kept.{Kept}
use shielder.PureDkg.Steps.{Steps-Kept}
use shielder.Observe.Shielder.{Eon, find_eon}
use shielder.Decide.{Libraries, Dkg, Decider, is_finalized, get_phase_at_height}
use shielder.Decide.Dkgs.{
  begin_dealing, begin_accusing, begin_apologizing, dkg_finalize, when, is_due, sync_dkg_with_eon,
  handle_from, handle_dkgs,
}
use shielder.Decide.Dkgs.Begun.{
  GoesOn, begin_dealing-Follows, begin_accusing-Follows, begin_apologizing-Follows,
  dkg_finalize-Follows, send_poly_evals-Follows,
}
use shielder.Decide.Dkgs.Kept.{
  Follows, Follows-refl, commitments-Follow, poly_evals-Follow, accusations-Follow,
  apologies-Follow,
}

-- Two lists of the same length, of which the elements at each place are related.
pub data Each {ℓ κ} {A : Type ℓ} (P : A → A → Type κ) : List A → List A → Type (ℓ ⊔ κ) where
  nothing : Each P [] []
  also : {a b : A} {xs ys : List A} → P a b → Each P xs ys → Each P (a ∷ xs) (b ∷ ys)

Each-append {ℓ κ} :
    {A : Type ℓ} {P : A → A → Type κ} {xs ys vs ws : List A}
    → Each P xs ys
    → Each P vs ws
    → Each P (xs ++ vs) (ys ++ ws)
Each-append nothing q = q
Each-append (also h p) q = also h (Each-append p q)

Each-map {ℓ κ μ} :
    {A : Type ℓ} {P : A → A → Type κ} {Q : A → A → Type μ} {xs ys : List A}
    → ((a b : A) → P a b → Q a b)
    → Each P xs ys
    → Each Q xs ys
Each-map h nothing = nothing
Each-map h (also p r) = also (h _ _ p) (Each-map h r)

module _ {x : External} (lib : Libraries x) (old : Dkg x) where
  when-Follows :
      (b : Bool) (step : Decider x → Dkg x → Result Panic (Decider x × Dkg x))
      (p : Decider x × Dkg x)
      → ((d : Decider x) (dkg : Dkg x) → Follows old dkg → Returns (GoesOn old) (step d dkg))
      → Follows old (p.1)
      → Returns (GoesOn old) (when lib b step p)
  when-Follows true step p h f = h p.0 p.1 f
  when-Follows false step p h f = f

  sync-Follows :
      (d : Decider x) (dkg : Dkg x) (eon : Eon x)
      → Follows old dkg
      → Returns (GoesOn old) (sync_dkg_with_eon lib d dkg eon)
  unfolding sync_dkg_with_eon
  sync-Follows d dkg eon f =
      let h = d.state.sync_height in
      let next =
        get_phase_at_height (d.phase_length) (add64 (d.shielder.current_block) 1)
          (eon.start_height) in
      Returns-bind (GoesOn old) (GoesOn old) _ _
        (when-Follows (is_due lib dkg off dealing next) (λ d dkg. begin_dealing lib d dkg next)
          (d, dkg) (λ d dkg g. begin_dealing-Follows lib old d dkg g next) f)
        (λ p fp.
          Returns-bind (Follows old) (GoesOn old) _ _ (commitments-Follow lib eon old (p.1) h fp)
            (λ c fc.
              Returns-bind (Follows old) (GoesOn old) _ _ (poly_evals-Follow lib eon old c h fc)
                (λ e fe.
                  Returns-bind (GoesOn old) (GoesOn old) _ _
                    (when-Follows (is_due lib e dealing accusing next)
                      (λ d dkg. begin_accusing lib d dkg next) (p.0, e)
                      (λ d dkg g. begin_accusing-Follows lib old d dkg g next) fe)
                    (λ q fq.
                      Returns-bind (Follows old) (GoesOn old) _ _
                        (accusations-Follow lib eon old (q.1) h fq)
                        (λ a fa.
                          Returns-bind (GoesOn old) (GoesOn old) _ _
                            (when-Follows (is_due lib a accusing apologizing next)
                              (λ d dkg. begin_apologizing lib d dkg next) (q.0, a)
                              (λ d dkg g. begin_apologizing-Follows lib old d dkg g next) fa)
                            (λ r fr.
                              Returns-bind (Follows old) (GoesOn old) _ _
                                (apologies-Follow lib eon old (r.1) h fr)
                                (λ o fo.
                                  when-Follows (is_due lib o apologizing finalized next)
                                    dkg_finalize (r.0, o)
                                    (λ d dkg g. dkg_finalize-Follows lib old d dkg g) fo)))))))

-- What is kept of a key generation.
abbrev pub IsContinued : {x : External} → Dkg x → Dkg x → Type 0
IsContinued old new = Kept (old.pure) (new.pure) × (new.eon ≡ old.eon) × (new.keypers ≡ old.keypers)

Follows-IsContinued : {x : External} {a b : Dkg x} → Follows a b → IsContinued a b
Follows-IsContinued f = (Steps-Kept (f.steps), f.same_eon, f.same_keypers)

module _ {x : External} (lib : Libraries x) where
  shift :
      (olds : List (Dkg x)) (dkg : Dkg x) (rest : List (Dkg x)) (r : Result Panic (Decider x))
      → Returns (λ d'. Each Follows ((olds ++ dkg ∷ []) ++ rest) (d'.state.dkgs)) r
      → Returns (λ d'. Each Follows (olds ++ dkg ∷ rest) (d'.state.dkgs)) r
  shift olds dkg rest r h =
      subst (λ xs. Returns (λ (d' : Decider x). Each Follows xs (d'.state.dkgs)) r)
        (append_assoc olds (dkg ∷ []) rest) h

  handle_from-Each :
      (d : Decider x) (olds before todo : List (Dkg x))
      → Each Follows olds before
      → Returns (λ d'. Each Follows (olds ++ todo) (d'.state.dkgs)) (handle_from lib d before todo)
  unfolding handle_from
  handle_from-Each d olds before [] h = rw (append-nil olds) h
  handle_from-Each d olds before (dkg ∷ rest) h =
      let After = λ (d' : Decider x). Each Follows (olds ++ dkg ∷ rest) (d'.state.dkgs) in
      elim (Bool-cases (is_finalized dkg)) [
        | inl done ↦
            rw (done, Returns, handle_from)
              (shift olds dkg rest _ (
                handle_from-Each d (olds ++ dkg ∷ []) (before ++ dkg ∷ []) rest
                  (Each-append h (also Follows-refl nothing))))
        | inr open_still ↦
            let found = or_err (find_eon (d.shielder) (dkg.eon)) not_found in
            rw (open_still, Returns, handle_from)
              (Returns-bind (λ b. found ≡ ok b) After found _ (Returns-self found)
                (λ eon _.
                  Returns-bind (GoesOn dkg) After _ _ (sync-Follows lib dkg d dkg eon Follows-refl)
                    (λ p f.
                      Returns-bind (GoesOn dkg) After _ _
                        (send_poly_evals-Follows lib dkg (p.0) (p.1) f)
                        (λ q g. shift olds dkg rest _ (
                          handle_from-Each q.0 (olds ++ dkg ∷ []) (before ++ q.1 ∷ []) rest
                            (Each-append h (also g nothing)))))))
      ]

  -- When `handleDKGs` returns, there are as many key generations as before, and each, at its
  -- place, has the eon and keypers that it had, is in no earlier phase, and keeps every
  -- commitment, evaluation, accusation and apology that it had accepted.
  pub handle_dkgs-Each :
      (d d' : Decider x)
      → handle_dkgs lib d ≡ ok d'
      → Each IsContinued (d.state.dkgs) (d'.state.dkgs)
  unfolding handle_dkgs
  handle_dkgs-Each d d' e =
      Each-map (λ a b. Follows-IsContinued)
        (Returns-eq (λ d'. Each Follows (d.state.dkgs) (d'.state.dkgs)) _ d'
          (handle_from-Each d [] [] (d.state.dkgs) nothing) e)
