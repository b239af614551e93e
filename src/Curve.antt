-- ===== src/Curve.antt =====
-- The groups of the curve library bn256 (github.com/ethereum/go-ethereum/crypto/bn256), and what the
-- code relies on of it.
use shielder.Base.{◌+◌, ◌*◌, ◌%◌, ◌≡◌, ℕ, Bool, List}
use shielder.Shmsg.{Bytes}

pub record Curve : Type 1 where
  pub G2 : Type 0
  -- `bn256.Order`
  pub order : ℕ
  -- `ScalarBaseMult`, `ScalarMult`, `Add` and `Marshal`
  pub scalar_base_mult : ℕ → G2
  pub scalar_mult : G2 → ℕ → G2
  pub add_g2 : G2 → G2 → G2
  pub marshal_g2 : G2 → Bytes
  -- The same of G1, with `Neg`, and `PairingCheck`.
  pub G1 : Type 0
  pub scalar_base_mult_g1 : ℕ → G1
  pub scalar_mult_g1 : G1 → ℕ → G1
  pub add_g1 : G1 → G1 → G1
  pub neg_g1 : G1 → G1
  pub pairing_check : List G1 → List G2 → Bool
  -- `Pair`, with `ScalarMult` and `Marshal` of its results.
  pub GT : Type 0
  pub pair : G1 → G2 → GT
  pub scalar_mult_gt : GT → ℕ → GT
  pub marshal_gt : GT → Bytes

-- The multiples of the generator of G2: a cyclic group of that order, whose points marshal to distinct bytes.
pub record CurveLaw (c : Curve) : Type 0 where
  pub base-add :
      (m n : ℕ)
      → c.scalar_base_mult (m + n) ≡ c.add_g2 (c.scalar_base_mult m) (c.scalar_base_mult n)
  pub mult-base : (m n : ℕ) → c.scalar_mult (c.scalar_base_mult m) n ≡ c.scalar_base_mult (m * n)
  pub base-mod : (n : ℕ) → c.scalar_base_mult (n % c.order) ≡ c.scalar_base_mult n
  pub marshal_injective : (p q : c.G2) → c.marshal_g2 p ≡ c.marshal_g2 q → p ≡ q

-- A factor of the first point and one of the generator may change places.
abbrev pub PairingLaw : Curve → Type 0
PairingLaw c =
    (p : c.G1) (m n : ℕ)
    → c.pair (c.scalar_mult_g1 p m) (c.scalar_base_mult n)
      ≡ c.scalar_mult_gt (c.pair p (c.scalar_base_mult m)) n
