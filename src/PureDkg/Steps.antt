-- ===== src/PureDkg/Steps.antt =====
-- Over any messages and phases: what a keyper has accepted stands, and the phases go forward.
use shielder.Base.{◌≡◌, refl, inl, inr, Option, List, ok, Result-cases, Returns}
use shielder.Curve.{Curve}
use shielder.Shcrypto.{Polynomial}
use shielder.PureDkg.Phases.{
  start_phase1_dealing, start_phase2_accusing, start_phase3_apologizing, accuse, apologize, keypers,
}
use shielder.PureDkg.{
  Phase, accusing, apologizing, PolyCommitmentMsg, PolyEvalMsg, AccusationMsg, ApologyMsg, PureDkg,
  MsgError, set_phase, handle_poly_commitment_msg, handle_poly_eval_msg, handle_accusation_msg,
  handle_apology_msg,
}
use shielder.PureDkg.Kept.{
  Kept, Kept-refl, Kept-trans, committed-Kept, evaluated-Kept, accused-Kept, apologized-Kept,
  advanced-Kept, dealt-Kept,
}

module _ {c : Curve} where
  pub data Step (pure pure' : PureDkg c) : Type 0 where
    committed :
        (m : PolyCommitmentMsg c) (e : Option MsgError)
        → handle_poly_commitment_msg pure m ≡ ok (pure', e)
        → Step pure pure'
    evaluated :
        (m : PolyEvalMsg) (e : Option MsgError)
        → handle_poly_eval_msg pure m ≡ ok (pure', e)
        → Step pure pure'
    accused :
        (m : AccusationMsg) (e : Option MsgError)
        → handle_accusation_msg pure m ≡ (pure', e)
        → Step pure pure'
    apologized :
        (m : ApologyMsg) (e : Option MsgError)
        → handle_apology_msg pure m ≡ (pure', e)
        → Step pure pure'
    dealt :
        (random : Option Polynomial) (r : Option (PolyCommitmentMsg c × List PolyEvalMsg))
        → start_phase1_dealing pure random ≡ ok (pure', r)
        → Step pure pure'
    advanced : (p : Phase) → set_phase pure p ≡ ok pure' → Step pure pure'

  pub data Steps (pure : PureDkg c) : PureDkg c → Type 0 where
    here : Steps pure pure
    next : {b d : PureDkg c} → Steps pure b → Step b d → Steps pure d

  Step-Kept : {a b : PureDkg c} → Step a b → Kept a b
  Step-Kept {a} {b} (committed m e h) = committed-Kept a b m e h
  Step-Kept {a} {b} (evaluated m e h) = evaluated-Kept a b m e h
  Step-Kept {a} {b} (accused m e h) = accused-Kept a b m e h
  Step-Kept {a} {b} (apologized m e h) = apologized-Kept a b m e h
  Step-Kept {a} {b} (dealt random r h) = dealt-Kept a b random r h
  Step-Kept {a} {b} (advanced p h) = advanced-Kept a b p h

  -- Over any sequence of messages, refused ones included, and of beginnings of phases, the phase
  -- does not go back, the eon stays, and every commitment, evaluation, accusation and apology that
  -- was accepted stays as it is.
  pub Steps-Kept : {a b : PureDkg c} → Steps a b → Kept a b
  Steps-Kept here = Kept-refl
  Steps-Kept (next s t) = Kept-trans (Steps-Kept s) (Step-Kept t)

  pub accusing_begun :
      (pure : PureDkg c)
      → Returns (λ r. set_phase pure accusing ≡ ok r.0) (start_phase2_accusing pure)
  unfolding start_phase2_accusing
  accusing_begun pure = elim (Result-cases (set_phase pure accusing)) [
    | inr (e, h) ↦ rw h tt
    | inl (p, h) ↦ rw h (elim (Result-cases (accuse p (keypers p))) [
      | inr (e, g) ↦ rw g tt
      | inl (a, g) ↦ rw g refl
    ])
  ]

  pub apologizing_begun :
      (pure : PureDkg c)
      → Returns (λ r. set_phase pure apologizing ≡ ok r.0) (start_phase3_apologizing pure)
  unfolding start_phase3_apologizing
  apologizing_begun pure = elim (Result-cases (set_phase pure apologizing)) [
    | inr (e, h) ↦ rw h tt
    | inl (p, h) ↦ rw h (elim (Result-cases (apologize p (p.accusations))) [
      | inr (e, g) ↦ rw g tt
      | inl (a, g) ↦ rw g refl
    ])
  ]
