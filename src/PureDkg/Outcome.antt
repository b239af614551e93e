-- ===== src/PureDkg/Outcome.antt =====
-- `ComputeResult` (keyper/puredkg/puredkg.go), and what a result rests on.
use shielder.Base.{
  ◌+◌, ◌≤◌, ◌≡◌, ◌∙◌, ◌∷◌, if◌then◌else◌, ◌>>=◌, ℕ, ap, inl, inr, true, false, Option, none, some,
  List, [], map, arith, ltb, Option-cases, All, Result, ok, err, Result-cases, pair_eq,
}
use shielder.Panic.{Panic}
use mathlib.Core.Path.{subst}
use shielder.Curve.{Curve}
use shielder.Shcrypto.{
  Gammas, degree_from_threshold, zero_gammas, verify_poly_eval, compute_eon_secret_key_share,
  compute_eon_public_key_share, compute_eon_public_key,
}
use shielder.PureDkg.{finalized, phase_number, DkgResult, PureDkg, index}
use shielder.PureDkg.Phases.{
  ResultError, not_finalized, corrupt_keyper, too_few_participants, keypers, is_bad, is_corrupt,
  poly_eval,
}

-- What the loop over the dealers has gathered.
pub record Gathered (c : Curve) : Type 0 where
  pub num_participants : ℕ
  pub commitments : List (Gammas c)
  pub evals : List ℕ

module _ {c : Curve} where
  -- The commitment and the evaluation of a dealer who is not corrupt, if they match. The commitment
  -- is never nil, as such a dealer has one.
  participant : PureDkg c → Option ℕ → Option (Gammas c) → Option (Gammas c × ℕ)
  participant pure (some e) (some gs) =
      if is_bad pure (some e) (some gs) then none else some (gs, e)
  participant pure none gs = none
  participant pure (some e) none = none

  take_part : Gammas c × ℕ → Gathered c → Gathered c
  take_part (gs, e) others = record {
    num_participants = others.num_participants + 1;
    commitments = gs ∷ others.commitments;
    evals = e ∷ others.evals;
  }

  -- A corrupt dealer counts as one with the polynomial 0.
  leave_out : PureDkg c → Gathered c → Gathered c
  leave_out pure others = record {
    num_participants = others.num_participants;
    commitments = zero_gammas c (degree_from_threshold (pure.threshold)) ∷ others.commitments;
    evals = 0 ∷ others.evals;
  }

  -- The loop of `ComputeResult` over the dealers, which ends at the first that has to be accused.
  gather : PureDkg c → List ℕ → Result Panic (Result ResultError (Gathered c))
  unfolding participant take_part leave_out
  gather pure [] = ok (ok (record { num_participants = 0; commitments = []; evals = [] }))
  gather pure (dealer ∷ rest) =
      let later = gather pure rest in
      is_corrupt pure dealer >>= elim [
        | true ↦ later >>= λ r. ok (r >>= λ others. ok (leave_out pure others))
        | false ↦ index (pure.commitments) dealer >>= λ gs. poly_eval pure dealer >>= λ e.
            elim (participant pure e gs) [
              | none ↦ ok (err corrupt_keyper)
              | some p ↦ later >>= λ r. ok (r >>= λ others. ok (take_part p others))
            ]
      ]

  unfoldable pub compute_result : PureDkg c → Result Panic (Result ResultError (DkgResult c))
  unfolding gather
  compute_result pure =
      if ltb (phase_number (pure.phase)) (phase_number finalized)
      then ok (err not_finalized)
      else (gather pure (keypers pure) >>= elim [
        | err why ↦ ok (err why)
        | ok g ↦ ok (
            if ltb g.num_participants (pure.threshold)
            then err too_few_participants
            else ok (record {
              eon = pure.eon;
              num_keypers = pure.num_keypers;
              threshold = pure.threshold;
              keyper = pure.keyper;
              secret_key_share = compute_eon_secret_key_share c g.evals;
              public_key = compute_eon_public_key c g.commitments;
              public_key_shares =
                  map (λ dealer. compute_eon_public_key_share c dealer g.commitments)
                    (keypers pure);
            }))
      ])

module _ {c : Curve} where
  -- Every dealer who is not corrupt has an evaluation that matches the commitment.
  abbrev pub IsSound : PureDkg c → ℕ → Type 0
  IsSound pure dealer =
      is_corrupt pure dealer ≡ ok false
      → (e : ℕ) × (gs : Gammas c) × (poly_eval pure dealer ≡ ok (some e))
        × (index (pure.commitments) dealer ≡ ok (some gs))
        × (verify_poly_eval c (pure.keyper) e gs (pure.threshold) ≡ true)

  -- The number of dealers who are not corrupt.
  abbrev pub count_honest : PureDkg c → List ℕ → ℕ
  count_honest pure [] = 0
  count_honest pure (dealer ∷ rest) =
      let others = count_honest pure rest in
      elim (is_corrupt pure dealer) [ ok false ↦ others + 1 | ok true ↦ others | err _ ↦ others ]

  participant_lem :
      (pure : PureDkg c) (e : Option ℕ) (gs : Option (Gammas c)) (p : Gammas c × ℕ)
      → participant pure e gs ≡ some p
      → (e ≡ some p.1)
        × (gs ≡ some p.0)
        × (verify_poly_eval c (pure.keyper) p.1 p.0 (pure.threshold) ≡ true)
  unfolding participant is_bad
  participant_lem pure (some e) (some gs) p h = ground (arith, h)
  participant_lem pure none gs p h = cc
  participant_lem pure (some e) none p h = cc

  -- Dealers who were gathered.
  abbrev AreGathered : PureDkg c → List ℕ → Gathered c → Type 0
  AreGathered pure dealers g =
      All (IsSound pure) dealers × (g.num_participants ≡ count_honest pure dealers)

  left_out_lem :
      (pure : PureDkg c) (dealer : ℕ) (rest : List ℕ) (others : Gathered c)
      → is_corrupt pure dealer ≡ ok true
      → AreGathered pure rest others
      → AreGathered pure (dealer ∷ rest) (leave_out pure others)
  unfolding leave_out
  left_out_lem pure dealer rest others p (sound, n) =
      ((λ k. absurd (ground (arith, p, k)), sound), rw (p, count_honest) (ground (arith, n)))

  took_part_lem :
      (pure : PureDkg c) (dealer : ℕ) (rest : List ℕ) (others : Gathered c)
      → (e : Option ℕ) (gs : Option (Gammas c)) (m : Gammas c × ℕ)
      → is_corrupt pure dealer ≡ ok false
      → index (pure.commitments) dealer ≡ ok gs
      → poly_eval pure dealer ≡ ok e
      → participant pure e gs ≡ some m
      → AreGathered pure rest others
      → AreGathered pure (dealer ∷ rest) (take_part m others)
  unfolding take_part
  took_part_lem pure dealer rest others e gs (gs', e') p q r t (sound, n) =
      let (x, y, good) = participant_lem pure e gs (gs', e') t in
      (
        (λ _. (e', gs', r ∙ ap ok x, q ∙ ap ok y, good), sound),
        rw (p, count_honest) (ground (arith, n)),
      )

  gather_lem :
      (pure : PureDkg c) (dealers : List ℕ) (g : Gathered c)
      → gather pure dealers ≡ ok (ok g)
      → AreGathered pure dealers g
  unfolding gather
  gather_lem pure [] g h = (tt, ground (arith, h))
  gather_lem pure (dealer ∷ rest) g h = elim (Result-cases (is_corrupt pure dealer)) [
    | inr (_, p) ↦ absurd (ground (arith, p, h))
    | inl (true, p) ↦ elim (Result-cases (gather pure rest)) [
      | inr (_, s) ↦ absurd (ground (arith, p, s, h))
      | inl (err why, s) ↦ absurd (ground (arith, p, s, h))
      | inl (ok others, s) ↦
          let same : leave_out pure others ≡ g = ground (arith, p, s, h) in
          subst (AreGathered pure (dealer ∷ rest)) same
            (left_out_lem pure dealer rest others p (gather_lem pure rest others s))
    ]
    | inl (false, p) ↦ elim (Result-cases (index (pure.commitments) dealer)) [
      | inr (_, q) ↦ absurd (ground (arith, p, q, h))
      | inl (gs, q) ↦ elim (Result-cases (poly_eval pure dealer)) [
        | inr (_, r) ↦ absurd (ground (arith, p, q, r, h))
        | inl (e, r) ↦ elim (Option-cases (participant pure e gs)) [
          | inl t ↦ absurd (ground (arith, p, q, r, t, h))
          | inr (m, t) ↦ elim (Result-cases (gather pure rest)) [
            | inr (_, s) ↦ absurd (ground (arith, p, q, r, t, s, h))
            | inl (err why, s) ↦ absurd (ground (arith, p, q, r, t, s, h))
            | inl (ok others, s) ↦
                let same : take_part m others ≡ g = ground (arith, p, q, r, t, s, h) in
                subst (AreGathered pure (dealer ∷ rest)) same (
                  took_part_lem pure dealer rest others e gs m p q r t
                    (gather_lem pure rest others s))
          ]
        ]
      ]
    ]
  ]

  -- When `ComputeResult` returns a result, the phase is the final one, every dealer who is not
  -- corrupt has a commitment and an evaluation that is accepted against it, and the dealers who
  -- are not corrupt number at least the threshold.
  pub compute_result_lem :
      (pure : PureDkg c) (r : DkgResult c)
      → compute_result pure ≡ ok (ok r)
      → (pure.phase ≡ finalized)
        × All (IsSound pure) (keypers pure)
        × (pure.threshold ≤ count_honest pure (keypers pure))
  unfolding compute_result
  compute_result_lem pure r h = elim (Result-cases (gather pure (keypers pure))) [
    | inr (_, p) ↦ absurd (ground (arith, p, h))
    | inl (err why, p) ↦ absurd (ground (arith, p, h))
    | inl (ok g, p) ↦
        let (sound, n) = gather_lem pure (keypers pure) g p in
        (ground (arith, p, h), sound, ground (arith, p, h, n))
  ]
