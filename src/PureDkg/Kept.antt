-- ===== src/PureDkg/Kept.antt =====
-- What each message, and the beginning of a phase, keeps of a key generation.
use shielder.Base.{
  ◌≤◌, ◌≡◌, ◌∙◌, ◌∷◌, ◌==◌, ℕ, zero, suc, refl, ap, inl, inr, true, Option, none, some, List, [],
  arith, Bool-cases, Option-cases, pair_beq_iff, get_elem?, set, contains, get-put, get, ok,
  contains-insert, Result-cases, nat_eq, pair_eq,
}
use mathlib.Core.Path.{subst}
use shielder.Curve.{Curve}
use shielder.Shcrypto.{Gammas, Polynomial, eval_for_keyper}
use shielder.PureDkg.Phases.{deal, start_phase1_dealing, keypers}
use shielder.PureDkg.{
  dealing, Phase, phase_number, PolyCommitmentMsg, PolyEvalMsg, AccusationMsg, ApologyMsg,
  AccusationKey, PureDkg, MsgError, set_phase, handle_poly_commitment_msg, handle_poly_eval_msg,
  handle_accusation_msg, handle_apology_msg,
}

-- A write where nothing stands leaves what stands elsewhere.
set-kept {ℓ} :
    {A : Type ℓ} (xs : List (Option A)) (i j : ℕ) (v : Option A) (a : A)
    → get_elem? xs i ≡ some none
    → get_elem? xs j ≡ some (some a)
    → get_elem? (set xs i v) j ≡ some (some a)
set-kept [] i j v a h k = cc
set-kept (x ∷ xs) zero zero v a h k = cc
set-kept (x ∷ xs) zero (suc j) v a h k = k
set-kept (x ∷ xs) (suc i) zero v a h k = k
set-kept (x ∷ xs) (suc i) (suc j) v a h k = set-kept xs i j v a h k

module _ {c : Curve} where
  -- What the messages and the phases keep.
  pub record Kept (pure pure' : PureDkg c) : Type 0 where
    pub forward : phase_number (pure.phase) ≤ phase_number (pure'.phase)
    pub same_eon : pure'.eon ≡ pure.eon
    pub commitments :
        (i : ℕ) (gs : Gammas c)
        → get_elem? (pure.commitments) i ≡ some (some gs)
        → get_elem? (pure'.commitments) i ≡ some (some gs)
    pub evals :
        (i e : ℕ)
        → get_elem? (pure.evals) i ≡ some (some e)
        → get_elem? (pure'.evals) i ≡ some (some e)
    pub accusations :
        (k : AccusationKey)
        → contains (pure.accusations) k ≡ true
        → contains (pure'.accusations) k ≡ true
    pub apologies :
        (k : AccusationKey) (e : ℕ)
        → get k (pure.apologies) ≡ some e
        → get k (pure'.apologies) ≡ some e

  pub Kept-refl : {a : PureDkg c} → Kept a a
  Kept-refl = record {
    forward = omega arith;
    same_eon = refl;
    commitments = λ i gs h. h;
    evals = λ i e h. h;
    accusations = λ k h. h;
    apologies = λ k e h. h;
  }

  pub Kept-trans : {a b d : PureDkg c} → Kept a b → Kept b d → Kept a d
  Kept-trans h k = record {
    forward = omega (arith, h.forward, k.forward);
    same_eon = k.same_eon ∙ h.same_eon;
    commitments = λ i gs p. k.commitments i gs (h.commitments i gs p);
    evals = λ i e p. k.evals i e (h.evals i e p);
    accusations = λ a p. k.accusations a (h.accusations a p);
    apologies = λ a e p. k.apologies a e (h.apologies a e p);
  }

  pub committed-Kept :
      (pure pure' : PureDkg c) (m : PolyCommitmentMsg c) (e : Option MsgError)
      → handle_poly_commitment_msg pure m ≡ ok (pure', e)
      → Kept pure pure'
  unfolding handle_poly_commitment_msg
  committed-Kept pure pure' m e h = record {
    forward = ground (arith, h);
    same_eon = ground (arith, h);
    commitments =
        λ i gs p. ground (arith, h, p, set-kept (pure.commitments) m.sender i (some m.gammas) gs);
    evals = λ i v p. ground (arith, h, p);
    accusations = λ k p. ground (arith, h, p);
    apologies = λ k v p. ground (arith, h, p);
  }

  pub evaluated-Kept :
      (pure pure' : PureDkg c) (m : PolyEvalMsg) (e : Option MsgError)
      → handle_poly_eval_msg pure m ≡ ok (pure', e)
      → Kept pure pure'
  unfolding handle_poly_eval_msg
  evaluated-Kept pure pure' m e h = record {
    forward = ground (arith, h);
    same_eon = ground (arith, h);
    commitments = λ i gs p. ground (arith, h, p);
    evals = λ i v p. ground (arith, h, p, set-kept (pure.evals) m.sender i (some m.eval) v);
    accusations = λ k p. ground (arith, h, p);
    apologies = λ k v p. ground (arith, h, p);
  }

  pub accused-Kept :
      (pure pure' : PureDkg c) (m : AccusationMsg) (e : Option MsgError)
      → handle_accusation_msg pure m ≡ (pure', e)
      → Kept pure pure'
  unfolding handle_accusation_msg
  accused-Kept pure pure' m e h = record {
    forward = ground (arith, h);
    same_eon = ground (arith, h);
    commitments = λ i gs p. ground (arith, h, p);
    evals = λ i v p. ground (arith, h, p);
    accusations =
        λ k p. ground (arith, h, p, contains-insert (m.accuser, m.accused) k (pure.accusations));
    apologies = λ k v p. ground (arith, h, p);
  }

  pub apologized-Kept :
      (pure pure' : PureDkg c) (m : ApologyMsg) (e : Option MsgError)
      → handle_apology_msg pure m ≡ (pure', e)
      → Kept pure pure'
  unfolding handle_apology_msg
  apologized-Kept pure pure' m e h = record {
    forward = ground (arith, h);
    same_eon = ground (arith, h);
    commitments = λ i gs p. ground (arith, h, p);
    evals = λ i v p. ground (arith, h, p);
    accusations = λ k p. ground (arith, h, p);
    apologies = λ k v p. ground (
      arith,
      h,
      p,
      get-put (m.accuser, m.accused) k m.eval (pure.apologies),
      pair_beq_iff (m.accuser, m.accused) k,
      λ (q : (m.accuser, m.accused) ≡ k). ap (λ j. get j (pure.apologies)) q,
    );
  }

  pub advanced-Kept :
      (pure pure' : PureDkg c) (p : Phase) → set_phase pure p ≡ ok pure' → Kept pure pure'
  unfolding set_phase
  advanced-Kept pure pure' p h = record {
    forward = ground (arith, h);
    same_eon = ground (arith, h);
    commitments = λ i gs q. ground (arith, h, q);
    evals = λ i v q. ground (arith, h, q);
    accusations = λ k q. ground (arith, h, q);
    apologies = λ k v q. ground (arith, h, q);
  }

  deal-Kept :
      (pure pure' : PureDkg c) (polynomial : Polynomial) (rs : List ℕ) (ms : List PolyEvalMsg)
      → deal pure polynomial rs ≡ ok (pure', ms)
      → Kept pure pure'
  unfolding deal
  deal-Kept pure pure' polynomial [] ms h =
      let same : pure ≡ pure' = ground (arith, h) in subst (Kept pure) same Kept-refl
  deal-Kept pure pure' polynomial (receiver ∷ rs) ms h =
      elim (Result-cases (eval_for_keyper c polynomial receiver)) [
        | inr (_, p) ↦ absurd (ground (arith, p, h))
        | inl (e, p) ↦
            let msg : PolyEvalMsg = record {
              eon = pure.eon;
              sender = pure.keyper;
              receiver = receiver;
              eval = e;
            } in
            elim (Bool-cases (receiver == pure.keyper)) [
              | inl self ↦ elim (Result-cases (handle_poly_eval_msg pure msg)) [
                | inr (_, q) ↦ absurd (ground (arith, p, self, q, h))
                | inl ((b, some _), q) ↦ absurd (ground (arith, p, self, q, h))
                | inl ((b, none), q) ↦
                    Kept-trans (evaluated-Kept pure b msg none q)
                      (deal-Kept b pure' polynomial rs ms (ground (arith, p, self, q, h)))
              ]
              | inr other ↦ elim (Result-cases (deal pure polynomial rs)) [
                | inr (_, q) ↦ absurd (ground (arith, p, other, q, h))
                | inl ((b, ns), q) ↦
                    let same : b ≡ pure' = ground (arith, p, other, q, h) in
                    deal-Kept pure pure' polynomial rs ns (rw same at q)
              ]
            ]
      ]

  pub dealt-Kept :
      (pure pure' : PureDkg c) (random : Option Polynomial)
      (r : Option (PolyCommitmentMsg c × List PolyEvalMsg))
      → start_phase1_dealing pure random ≡ ok (pure', r)
      → Kept pure pure'
  unfolding start_phase1_dealing
  dealt-Kept pure pure' random r h = elim (Result-cases (set_phase pure dealing)) [
    | inr (_, p) ↦ absurd (ground (arith, p, h))
    | inl (started, p) ↦ elim (Option-cases random) [
      | inl q ↦
          let same : started ≡ pure' = ground (arith, p, q, h) in
          subst (Kept pure) same (advanced-Kept pure started dealing p)
      | inr (polynomial, q) ↦
          let own = record started { polynomial = some polynomial } in
          let k : Kept started own = record {
            forward = omega arith;
            same_eon = refl;
            commitments = λ i gs a. a;
            evals = λ i v a. a;
            accusations = λ i a. a;
            apologies = λ i v a. a;
          } in
          elim (Result-cases (deal own polynomial (keypers pure))) [
            | inr (_, t) ↦ absurd (ground (arith, p, q, t, h))
            | inl ((b, ms), t) ↦
                let same : b ≡ pure' = ground (arith, p, q, t, h) in
                subst (Kept pure) same (
                  Kept-trans (advanced-Kept pure started dealing p)
                    (Kept-trans k (deal-Kept own b polynomial (keypers pure) ms t)))
          ]
    ]
  ]
