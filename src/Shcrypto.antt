-- ===== src/Shcrypto.antt =====
-- Polynomials and gammas (shcrypto/feldman.go), and the eon keys (shcrypto/keys.go). A `big.Int` is a
-- natural number: none that the code reaches is negative.
pub mod Feldman
pub mod Keys
pub mod Epochs
pub mod Padding
pub mod Encryption
pub mod Encoding
use shielder.Base.{
  ◌+◌, ◌*◌, ◌%◌, ◌∷◌, ◌==◌, if◌then◌else◌, ◌>>=◌, ℕ, Bool, false, not, Option, none, some, List, [],
  map, ltb, length, replicate, all, add64, sub64, Result, ok, err, nat_eq, list_eq,
}
use shielder.Panic.{Panic, index_out_of_range}
use shielder.Curve.{Curve}

-- The coefficients, the constant one first.
abbrev pub Polynomial : Type 0
Polynomial = List ℕ

abbrev pub Gammas : Curve → Type 0
Gammas c = List c.G2

-- `uint64(len(*p)) - 1`, of a polynomial and of gammas.
abbrev pub degree {ℓ} : {A : Type ℓ} → List A → ℕ
degree xs = sub64 (length xs) 1

abbrev pub degree_from_threshold : ℕ → ℕ
degree_from_threshold threshold = sub64 threshold 1

-- For an index that an `int64` holds.
abbrev pub keyper_x : ℕ → ℕ
keyper_x keyper_index = 1 + keyper_index

module _ (c : Curve) where
  -- `NewPolynomial` fails without coefficients, and on one that is too big.
  unfoldable pub new_polynomial : List ℕ → Option Polynomial
  new_polynomial [] = none
  new_polynomial (a ∷ rest) = if all (λ v. ltb v c.order) (a ∷ rest) then some (a ∷ rest) else none

  -- Horner's method, from the last coefficient down.
  unfoldable pub eval : Polynomial → ℕ → Result Panic ℕ
  eval [] x = err index_out_of_range
  eval (a ∷ []) x = ok a
  eval (a ∷ b ∷ rest) x = eval (b ∷ rest) x >>= λ res. ok ((res * x + a) % c.order)

  unfoldable pub eval_for_keyper : Polynomial → ℕ → Result Panic ℕ
  unfolding eval
  eval_for_keyper p keyper_index = eval p (keyper_x keyper_index)

  unfoldable pub valid_eval : ℕ → Bool
  valid_eval v = ltb v c.order

  unfoldable pub gammas : Polynomial → Gammas c
  gammas p = map c.scalar_base_mult p

  unfoldable pub zero_gammas : ℕ → Gammas c
  zero_gammas degree = replicate (add64 degree 1) (c.scalar_base_mult 0)

  -- The loop of `Pi`.
  pi_from : ℕ → ℕ → c.G2 → Gammas c → c.G2
  pi_from xi xi_to_j res [] = res
  pi_from xi xi_to_j res (gamma ∷ rest) =
      pi_from xi (xi_to_j * xi % c.order) (c.add_g2 res (c.scalar_mult gamma xi_to_j)) rest

  unfoldable pub pi : Gammas c → ℕ → c.G2
  unfolding pi_from
  pi gs xi = pi_from xi 1 (c.scalar_base_mult 0) gs

  unfoldable pub equal_g2 : c.G2 → c.G2 → Bool
  equal_g2 p q = c.marshal_g2 p == c.marshal_g2 q

  unfoldable pub verify_poly_eval : ℕ → ℕ → Gammas c → ℕ → Bool
  unfolding pi equal_g2
  verify_poly_eval keyper_index poly_eval gs threshold =
      if not (degree gs == sub64 threshold 1)
      then false
      else equal_g2 (pi gs (keyper_x keyper_index)) (c.scalar_base_mult poly_eval)

  -- The loop of `ComputeEonSecretKeyShare`.
  sum_evals : ℕ → List ℕ → ℕ
  sum_evals res [] = res
  sum_evals res (si ∷ rest) = sum_evals ((res + si) % c.order) rest

  unfoldable pub compute_eon_secret_key_share : List ℕ → ℕ
  unfolding sum_evals
  compute_eon_secret_key_share poly_evals = sum_evals 0 poly_evals

  -- The loop of `ComputeEonPublicKeyShare` and of `ComputeEonPublicKey`.
  sum_pis : ℕ → c.G2 → List (Gammas c) → c.G2
  unfolding pi
  sum_pis x g2 [] = g2
  sum_pis x g2 (gs ∷ rest) = sum_pis x (c.add_g2 g2 (pi gs x)) rest

  unfoldable pub compute_eon_public_key_share : ℕ → List (Gammas c) → c.G2
  unfolding sum_pis
  compute_eon_public_key_share keyper_index gs =
      sum_pis (keyper_x keyper_index) (c.scalar_base_mult 0) gs

  unfoldable pub compute_eon_public_key : List (Gammas c) → c.G2
  unfolding sum_pis
  compute_eon_public_key gs = sum_pis 0 (c.scalar_base_mult 0) gs
