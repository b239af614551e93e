-- ===== src/Shcrypto/Feldman.antt =====
-- An evaluation matches the gammas of its polynomial.
use shielder.Base.{
  ◌+◌, ◌*◌, ◌%◌, ◌≡◌, ◌∙◌, ◌↔◌, ◌∷◌, ℕ, refl, sym, ap, inl, inr, true, List, [], map, arith,
  list_beq_iff, length, sub64, ok, Result-cases, nat_eq, list_eq,
}
use native.Mathlib.Nat.{mul_comm, add_comm, mul_assoc, mul-add, mul-one}
use shielder.Curve.{Curve, CurveLaw}
use shielder.Shcrypto.{
  Polynomial, Gammas, degree, keyper_x, eval, gammas, pi_from, pi, equal_g2, verify_poly_eval,
  eval_for_keyper,
}

-- The value of a polynomial, not reduced.
abbrev pub value : Polynomial → ℕ → ℕ
value [] x = 0
value (a ∷ rest) x = a + x * value rest x

length-map {ℓ κ} :
    {A : Type ℓ} {B : Type κ} (f : A → B) (xs : List A) → length (map f xs) ≡ length xs
length-map f [] = refl
length-map f (x ∷ xs) = omega (arith, length-map f xs)

module _ (c : Curve) (law : CurveLaw c) where
  abbrev base : ℕ → c.G2
  base = c.scalar_base_mult

  -- A factor may be reduced.
  base-mul_mod : (m n : ℕ) → base (m % c.order * n) ≡ base (m * n)
  base-mul_mod m n =
      sym (law.mult-base (m % c.order) n)
      ∙ ap (λ p. c.scalar_mult p n) (law.base-mod m)
      ∙ law.mult-base m n

  base-add_right : (k m n : ℕ) → base m ≡ base n → base (k + m) ≡ base (k + n)
  base-add_right k m n h =
      law.base-add k m ∙ ap (λ p. c.add_g2 (base k) p) h ∙ sym (law.base-add k n)

  pi_from-gammas :
      (x y r : ℕ) (p : Polynomial) → pi_from c x y (base r) (gammas c p) ≡ base (r + y * value p x)
  unfolding pi_from gammas
  pi_from-gammas x y r [] = ap base (omega (arith, mul_comm y 0))
  pi_from-gammas x y r (a ∷ rest) =
      ap (λ g. pi_from c x (y * x % c.order) g (gammas c rest))
        (ap (c.add_g2 (base r)) (law.mult-base a y) ∙ sym (law.base-add r (a * y)))
      ∙ pi_from-gammas x (y * x % c.order) (r + a * y) rest
      ∙ base-add_right (r + a * y) _ _ (base-mul_mod (y * x) (value rest x))
      ∙ ap base (
          omega (arith, mul-add y a (x * value rest x), mul_assoc y x (value rest x), mul_comm a y))

  times : (m n x : ℕ) → base m ≡ base n → base (m * x) ≡ base (x * n)
  times m n x h =
      sym (law.mult-base m x)
      ∙ ap (λ p. c.scalar_mult p x) h
      ∙ law.mult-base n x
      ∙ ap base (mul_comm n x)

  pub eval-value : (p : Polynomial) (x e : ℕ) → eval c p x ≡ ok e → base e ≡ base (value p x)
  unfolding eval
  eval-value [] x e h = cc
  eval-value (a ∷ []) x e h = ap base (ground (arith, h, mul_comm x 0))
  eval-value (a ∷ b ∷ rest) x e h = elim (Result-cases (eval c (b ∷ rest) x)) [
    | inr (p, q) ↦ absurd (ground (arith, q, h))
    | inl (res, q) ↦
        let same : (res * x + a) % c.order ≡ e = ground (arith, q, h) in
        ap base (sym same)
        ∙ law.base-mod (res * x + a)
        ∙ ap base (add_comm (res * x) a)
        ∙ base-add_right a (res * x) (x * value (b ∷ rest) x)
            (times res _ x (eval-value (b ∷ rest) x res q))
  ]

  pub pi-gammas : (p : Polynomial) (x e : ℕ) → eval c p x ≡ ok e → pi c (gammas c p) x ≡ base e
  unfolding pi
  pi-gammas p x e h =
      pi_from-gammas x 1 0 p
      ∙ ap base (omega (arith, mul_comm 1 (value p x), mul-one (value p x)))
      ∙ sym (eval-value p x e h)

  -- For a group that satisfies the laws of the curve's, an evaluation is accepted against gammas
  -- exactly if the gammas have the degree that belongs to the threshold, and their value at the
  -- keyper's place is the generator times the evaluation.
  pub verify_poly_eval_iff :
      (gs : Gammas c) (keyper_index threshold e : ℕ)
      → (verify_poly_eval c keyper_index e gs threshold ≡ true) ↔ (
          (degree gs ≡ sub64 threshold 1)
          × (pi c gs (keyper_x keyper_index) ≡ c.scalar_base_mult e))
  unfolding verify_poly_eval equal_g2
  verify_poly_eval_iff gs keyper_index threshold e =
      let lhs = pi c gs (keyper_x keyper_index) in
      ground (
        arith,
        list_beq_iff (c.marshal_g2 lhs) (c.marshal_g2 (base e)),
        law.marshal_injective lhs (base e),
        λ (q : lhs ≡ base e). ap c.marshal_g2 q,
      )

  -- For a group that satisfies the laws of the curve's, a polynomial with as many coefficients as
  -- the threshold, and its evaluation for a keyper, the keyper accepts the evaluation against the
  -- polynomial's gammas.
  pub verify_poly_eval_honest :
      (p : Polynomial) (keyper_index threshold e : ℕ)
      → length p ≡ threshold
      → eval_for_keyper c p keyper_index ≡ ok e
      → verify_poly_eval c keyper_index e (gammas c p) threshold ≡ true
  unfolding eval_for_keyper gammas
  verify_poly_eval_honest p keyper_index threshold e len h =
      (verify_poly_eval_iff (gammas c p) keyper_index threshold e).1 (
        ap (λ n. sub64 n 1) (length-map c.scalar_base_mult p ∙ len),
        pi-gammas p (keyper_x keyper_index) e h,
      )
