-- ===== src/Shcrypto/Epochs.antt =====
-- Epoch keys: shares, and the key they give together (shcrypto/keys.go).
use shielder.Base.{
  ◌+◌, ◌-◌, ◌*◌, ◌%◌, ◌∷◌, ◌==◌, if◌then◌else◌, ℕ, zero, suc, Bool, not, List, [], length, add64,
  Result, ok, err, nat_eq,
}
use shielder.Curve.{Curve}
use shielder.Shcrypto.{keyper_x}

-- Why shares give no key.
pub data KeyError : Type 0 where
  length_mismatch wrong_number : KeyError

module _ (c : Curve) where
  unfoldable pub compute_epoch_id : ℕ → c.G1
  compute_epoch_id epoch_index = c.scalar_base_mult_g1 (add64 epoch_index 1)

  pub compute_epoch_secret_key_share : ℕ → c.G1 → c.G1
  compute_epoch_secret_key_share eon_secret_key_share epoch_id =
      c.scalar_mult_g1 epoch_id eon_secret_key_share

  -- `Exp` of `big.Int`, modulo the order.
  exp_mod : ℕ → ℕ → ℕ
  exp_mod x zero = 1 % c.order
  exp_mod x (suc n) = x * exp_mod x n % c.order

  invert : ℕ → ℕ
  unfolding exp_mod
  invert x = exp_mod x (c.order - 2)

  -- The difference of the places is taken modulo the order, as `Mod` does below 0 too.
  lagrange_coefficient_factor : ℕ → ℕ → ℕ
  unfolding invert
  lagrange_coefficient_factor k keyper_index =
      let dx = (keyper_x k % c.order + c.order - keyper_x keyper_index % c.order) % c.order in
      keyper_x k * invert dx % c.order

  -- The loop of `lagrangeCoefficient`.
  lagrange_from : ℕ → ℕ → List ℕ → ℕ
  unfolding lagrange_coefficient_factor
  lagrange_from lambda keyper_index [] = lambda
  lagrange_from lambda keyper_index (k ∷ rest) =
      lagrange_from
        (if k == keyper_index
          then lambda
          else lambda * lagrange_coefficient_factor k keyper_index % c.order)
        keyper_index rest

  lagrange_coefficient : ℕ → List ℕ → ℕ
  unfolding lagrange_from
  lagrange_coefficient keyper_index keyper_indices = lagrange_from 1 keyper_index keyper_indices

  -- The loop of `ComputeEpochSecretKey` over both lists.
  sum_shares : List ℕ → c.G1 → List ℕ → List c.G1 → c.G1
  unfolding lagrange_coefficient
  sum_shares indices sk [] shares = sk
  sum_shares indices sk (i ∷ rest) [] = sk
  sum_shares indices sk (i ∷ rest) (share ∷ shares) =
      sum_shares indices (c.add_g1 sk (c.scalar_mult_g1 share (lagrange_coefficient i indices)))
        rest shares

  unfoldable pub compute_epoch_secret_key : List ℕ → List c.G1 → ℕ → Result KeyError c.G1
  unfolding sum_shares
  compute_epoch_secret_key keyper_indices shares threshold =
      if not (length keyper_indices == length shares)
      then err length_mismatch
      else if not (length keyper_indices == threshold)
      then err wrong_number
      else ok (sum_shares keyper_indices (c.scalar_base_mult_g1 0) keyper_indices shares)

  unfoldable pub verify_epoch_secret_key_share : c.G1 → c.G2 → c.G1 → Bool
  verify_epoch_secret_key_share share eon_public_key_share epoch_id =
      c.pairing_check (share ∷ c.neg_g1 epoch_id ∷ [])
        (c.scalar_base_mult 1 ∷ eon_public_key_share ∷ [])
