-- ===== src/PureDkg/Laws.antt =====
-- Who is corrupt, and what the messages and the phases change.
use shielder.Base.{
  ◌≡◌, ◌↔◌, ◌∷◌, ℕ, refl, inl, inr, Bool, true, false, none, some, List, [], arith, =ℕ_iff, All,
  has, ok, any, Result-cases, nat_eq, pair_eq,
}
use shielder.Curve.{Curve}
use shielder.Shcrypto.{Gammas, verify_poly_eval}
use shielder.PureDkg.{AccusationKey, PureDkg, index}
use shielder.PureDkg.Phases.{is_corrupt, bad_apology, unanswered}

module _ {ℓ κ} {A : Type ℓ} (P : A → Type κ) (p : A → Bool) where
  -- A test fails on all of a list, where it fails exactly on what has a property.
  any-All : ((a : A) → (p a ≡ false) ↔ P a) → (xs : List A) → (any p xs ≡ false) ↔ All P xs
  any-All h [] = (λ _. tt, λ _. refl)
  any-All h (x ∷ xs) = (
    λ e. ((h x).0 (ground (arith, e)), (any-All h xs).0 (ground (arith, e))),
    λ a. ground (arith, (h x).1 a.0, (any-All h xs).1 a.1),
  )

module _ {c : Curve} where
  -- Every apology of the dealer's matches the gammas.
  abbrev pub IsApology : PureDkg c → Gammas c → ℕ → AccusationKey × ℕ → Type 0
  IsApology pure gs dealer ((accuser, accused), e) =
      accused ≡ dealer → verify_poly_eval c accuser e gs (pure.threshold) ≡ true

  -- Every accusation of the dealer's has an apology.
  abbrev pub IsAnswered : PureDkg c → ℕ → AccusationKey → Type 0
  IsAnswered pure dealer (accuser, accused) =
      accused ≡ dealer → has (accuser, accused) (pure.apologies) ≡ true

  bad_apology_iff :
      (pure : PureDkg c) (gs : Gammas c) (dealer : ℕ) (a : AccusationKey × ℕ)
      → (bad_apology pure gs dealer a ≡ false) ↔ IsApology pure gs dealer a
  unfolding bad_apology
  bad_apology_iff pure gs dealer ((accuser, accused), e) = ground (arith, =ℕ_iff accused dealer)

  unanswered_iff :
      (pure : PureDkg c) (dealer : ℕ) (a : AccusationKey)
      → (unanswered pure dealer a ≡ false) ↔ IsAnswered pure dealer a
  unfolding unanswered
  unanswered_iff pure dealer (accuser, accused) = ground (arith, =ℕ_iff accused dealer)

  -- A dealer is found not to be corrupt exactly if the dealer's commitment is there, every apology
  -- of the dealer's is accepted against it, and every accusation of the dealer has an apology.
  pub is_corrupt_iff :
      (pure : PureDkg c) (dealer : ℕ)
      → (is_corrupt pure dealer ≡ ok false) ↔ (
          (gs : Gammas c) × (index (pure.commitments) dealer ≡ ok (some gs))
          × All (IsApology pure gs dealer) (pure.apologies)
          × All (IsAnswered pure dealer) (pure.accusations))
  unfolding is_corrupt
  is_corrupt_iff pure dealer = (forward, backward)
    where
      forward :
          is_corrupt pure dealer ≡ ok false
          → (gs : Gammas c) × (index (pure.commitments) dealer ≡ ok (some gs))
            × All (IsApology pure gs dealer) (pure.apologies)
            × All (IsAnswered pure dealer) (pure.accusations)
      forward h = elim (Result-cases (index (pure.commitments) dealer)) [
        | inr (e, p) ↦ absurd (ground (arith, p, h))
        | inl (none, p) ↦ absurd (ground (arith, p, h))
        | inl (some gs, p) ↦ (
          gs,
          p,
          (any-All (IsApology pure gs dealer) (bad_apology pure gs dealer)
                (bad_apology_iff pure gs dealer) (pure.apologies)).0
              (ground (arith, p, h)),
          (any-All (IsAnswered pure dealer) (unanswered pure dealer) (unanswered_iff pure dealer)
                (pure.accusations)).0
              (ground (arith, p, h)),
        )
      ]

      backward :
          ((gs : Gammas c) × (index (pure.commitments) dealer ≡ ok (some gs))
            × All (IsApology pure gs dealer) (pure.apologies)
            × All (IsAnswered pure dealer) (pure.accusations))
          → is_corrupt pure dealer ≡ ok false
      backward (gs, p, a, b) =
          let q =
            (any-All (IsApology pure gs dealer) (bad_apology pure gs dealer)
                (bad_apology_iff pure gs dealer) (pure.apologies)).1
              a in
          let r =
            (any-All (IsAnswered pure dealer) (unanswered pure dealer) (unanswered_iff pure dealer)
                (pure.accusations)).1
              b in
          rw (p, is_corrupt) (rw q (rw r refl))
