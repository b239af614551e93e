-- ===== src/PureDkg/Phases.antt =====
-- The phases of the key generation, and its result (keyper/puredkg/puredkg.go).
use shielder.Base.{
  ◌+◌, ◌&&◌, ◌||◌, ◌∷◌, ◌==◌, if◌then◌else◌, ◌>>=◌, ℕ, zero, suc, Bool, true, false, not, Option,
  none, some, List, [], has, get, Result, ok, err, or_err, any, nat_eq, pair_eq,
}
use shielder.Panic.{Panic, nil_pointer, unexpected_error}
use shielder.Curve.{Curve}
use shielder.Shcrypto.{Polynomial, Gammas, eval_for_keyper, gammas, verify_poly_eval}
use shielder.PureDkg.{
  dealing, accusing, apologizing, finalized, PolyCommitmentMsg, PolyEvalMsg, AccusationMsg,
  ApologyMsg, AccusationKey, PureDkg, index, set_phase, handle_poly_eval_msg,
}

-- `for i = start; i < start + n; i++`
abbrev pub range : ℕ → ℕ → List ℕ
range start zero = []
range start (suc n) = start ∷ range (start + 1) n

abbrev pub keypers : {c : Curve} → PureDkg c → List ℕ
keypers pure = range 0 (pure.num_keypers)

-- Why there is no result.
pub data ResultError : Type 0 where
  not_finalized corrupt_keyper too_few_participants : ResultError

module _ {c : Curve} where
  -- The loop of `StartPhase1Dealing` over the receivers.
  unfoldable pub deal :
      PureDkg c → Polynomial → List ℕ → Result Panic (PureDkg c × List PolyEvalMsg)
  deal pure polynomial [] = ok (pure, [])
  deal pure polynomial (receiver ∷ rest) = eval_for_keyper c polynomial receiver >>= λ e.
      let msg : PolyEvalMsg = record {
        eon = pure.eon;
        sender = pure.keyper;
        receiver = receiver;
        eval = e;
      } in
      elim (receiver == pure.keyper) [
        | true ↦ handle_poly_eval_msg pure msg >>= λ r. elim r.1 [
          | some _ ↦ err unexpected_error
          | none ↦ deal r.0 polynomial rest
        ]
        | false ↦ deal pure polynomial rest >>= λ r. ok (r.0, msg ∷ r.1)
      ]

  -- `random` is what `RandomPolynomial` returns; without it, `StartPhase1Dealing` returns an error.
  unfoldable pub start_phase1_dealing :
      PureDkg c
      → Option Polynomial
      → Result Panic (PureDkg c × Option (PolyCommitmentMsg c × List PolyEvalMsg))
  unfolding deal
  start_phase1_dealing pure random = set_phase pure dealing >>= λ started. elim random [
    | none ↦ ok (started, none)
    | some polynomial ↦
        deal (record started { polynomial = some polynomial }) polynomial (keypers pure) >>= λ r.
        ok (
          r.0,
          some (record { eon = pure.eon; sender = pure.keyper; gammas = gammas c polynomial }, r.1),
        )
  ]

  -- `eval == nil || c == nil || !VerifyPolyEval(...)`
  unfoldable pub is_bad : PureDkg c → Option ℕ → Option (Gammas c) → Bool
  is_bad pure none gs = true
  is_bad pure (some e) none = true
  is_bad pure (some e) (some gs) = not (verify_poly_eval c (pure.keyper) e gs (pure.threshold))

  -- The loop of `StartPhase2Accusing` over the dealers.
  unfoldable pub accuse : PureDkg c → List ℕ → Result Panic (List AccusationMsg)
  unfolding is_bad
  accuse pure [] = ok []
  accuse pure (dealer ∷ rest) =
      let others = accuse pure rest in
      if dealer == pure.keyper then others else (do
        e ← index (pure.evals) dealer
        gs ← index (pure.commitments) dealer
        accusations ← others
        ok (
            if is_bad pure e gs
            then record { eon = pure.eon; accuser = pure.keyper; accused = dealer } ∷ accusations
            else accusations))

  unfoldable pub start_phase2_accusing : PureDkg c → Result Panic (PureDkg c × List AccusationMsg)
  unfolding accuse
  start_phase2_accusing pure = set_phase pure accusing >>= λ started.
      accuse started (keypers started) >>= λ accusations. ok (started, accusations)

  -- `pure.Polynomial.EvalForKeyper`, of a pointer that may be nil.
  eval_own : PureDkg c → ℕ → Result Panic ℕ
  eval_own pure accuser = or_err (pure.polynomial) nil_pointer >>= λ p. eval_for_keyper c p accuser

  -- The loop of `StartPhase3Apologizing` over the accusations.
  unfoldable pub apologize : PureDkg c → List AccusationKey → Result Panic (List ApologyMsg)
  unfolding eval_own
  apologize pure [] = ok []
  apologize pure ((accuser, accused) ∷ rest) =
      let others = apologize pure rest in
      if accused == pure.keyper
      then (do
        e ← eval_own pure accuser
        apologies ← others
        ok (record { eon = pure.eon; accuser = accuser; accused = accused; eval = e } ∷ apologies))
      else others

  unfoldable pub start_phase3_apologizing : PureDkg c → Result Panic (PureDkg c × List ApologyMsg)
  unfolding apologize
  start_phase3_apologizing pure = set_phase pure apologizing >>= λ started.
      apologize started (started.accusations) >>= λ apologies. ok (started, apologies)

  unfoldable pub finalize : PureDkg c → Result Panic (PureDkg c)
  finalize pure = set_phase pure finalized

  -- An apology of the dealer's that does not match the commitment.
  unfoldable pub bad_apology : PureDkg c → Gammas c → ℕ → AccusationKey × ℕ → Bool
  bad_apology pure gs dealer ((accuser, accused), e) =
      accused == dealer && not (verify_poly_eval c accuser e gs (pure.threshold))

  -- An accusation of the dealer that has no apology.
  unfoldable pub unanswered : PureDkg c → ℕ → AccusationKey → Bool
  unanswered pure dealer (accuser, accused) =
      accused == dealer && not (has (accuser, accused) (pure.apologies))

  unfoldable pub is_corrupt : PureDkg c → ℕ → Result Panic Bool
  unfolding bad_apology unanswered
  is_corrupt pure dealer = index (pure.commitments) dealer >>= elim [
    | none ↦ ok true
    | some gs ↦ ok (
        any (bad_apology pure gs dealer) (pure.apologies)
        || any (unanswered pure dealer) (pure.accusations))
  ]

  unfoldable pub poly_eval : PureDkg c → ℕ → Result Panic (Option ℕ)
  poly_eval pure dealer = elim (get (pure.keyper, dealer) (pure.apologies)) [
    | some e ↦ ok (some e)
    | none ↦ index (pure.evals) dealer
  ]
