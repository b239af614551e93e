-- ===== src/Shcrypto/Keys.antt =====
-- The public key shares match the secret key shares.
use shielder.Base.{◌+◌, ◌%◌, ◌≡◌, ◌∙◌, ◌∷◌, ℕ, refl, sym, ap, List, [], map, All, ok}
use shielder.Curve.{Curve, CurveLaw}
use shielder.Shcrypto.{
  Polynomial, Gammas, keyper_x, eval, gammas, sum_evals, sum_pis, compute_eon_secret_key_share,
  compute_eon_public_key_share, compute_eon_public_key,
}
use shielder.Shcrypto.Feldman.{pi-gammas}

-- Dealers' polynomials, each with its evaluation at one place.
abbrev pub AreEvals : Curve → ℕ → List (Polynomial × ℕ) → Type 0
AreEvals c x dealers = All (λ (d : Polynomial × ℕ). eval c d.0 x ≡ ok d.1) dealers

abbrev pub dealt_gammas : (c : Curve) → List (Polynomial × ℕ) → List (Gammas c)
dealt_gammas c dealers = map (λ d. gammas c d.0) dealers

abbrev pub dealt_evals : List (Polynomial × ℕ) → List ℕ
dealt_evals dealers = map (λ d. d.1) dealers

module _ (c : Curve) (law : CurveLaw c) where
  sum_pis-sum_evals :
      (x r : ℕ) (dealers : List (Polynomial × ℕ))
      → AreEvals c x dealers
      → sum_pis c x (c.scalar_base_mult r) (dealt_gammas c dealers)
        ≡ c.scalar_base_mult (sum_evals c r (dealt_evals dealers))
  unfolding sum_pis sum_evals
  sum_pis-sum_evals x r [] h = refl
  sum_pis-sum_evals x r (d ∷ rest) h =
      ap (λ g. sum_pis c x g (dealt_gammas c rest))
        (ap (c.add_g2 (c.scalar_base_mult r)) (pi-gammas c law d.0 x d.1 h.0)
          ∙ sym (law.base-add r d.1)
          ∙ sym (law.base-mod (r + d.1)))
      ∙ sum_pis-sum_evals x ((r + d.1) % c.order) rest h.1

  -- For a group that satisfies the laws of the curve's, and dealers' polynomials with their
  -- evaluations for a keyper, the public key share computed from the gammas is the generator times
  -- the secret key share computed from the evaluations.
  pub public_key_share-secret_key_share :
      (keyper_index : ℕ) (dealers : List (Polynomial × ℕ))
      → AreEvals c (keyper_x keyper_index) dealers
      → compute_eon_public_key_share c keyper_index (dealt_gammas c dealers)
        ≡ c.scalar_base_mult (compute_eon_secret_key_share c (dealt_evals dealers))
  unfolding compute_eon_public_key_share compute_eon_secret_key_share
  public_key_share-secret_key_share keyper_index dealers h =
      sum_pis-sum_evals (keyper_x keyper_index) 0 dealers h

  -- For a group that satisfies the laws of the curve's, and dealers' polynomials with their values
  -- at 0, the public key computed from the gammas is the generator times the sum of these values
  -- as the secret key share is computed.
  pub public_key-secret_key :
      (dealers : List (Polynomial × ℕ))
      → AreEvals c 0 dealers
      → compute_eon_public_key c (dealt_gammas c dealers)
        ≡ c.scalar_base_mult (compute_eon_secret_key_share c (dealt_evals dealers))
  unfolding compute_eon_public_key compute_eon_secret_key_share
  public_key-secret_key dealers h = sum_pis-sum_evals 0 0 dealers h
