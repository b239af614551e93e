-- ===== src/Base/Word.antt =====
-- Go's 64-bit integers. A `uint64` is a number below 2^64; an `int` or `int64` is the number below
-- 2^64 with the same bits.
use Prim.Native.Nat.{ℕ, ◌+◌, ◌-◌, ◌*◌, ◌%◌}
use mathlib.Core.Bool.{Bool}
use shielder.Base.Tests.{ltb, leb}

abbrev pub word_mod : ℕ
word_mod = 18446744073709551616

abbrev pub sign_bit : ℕ
sign_bit = 9223372036854775808

-- `a + b`, wrapping, of either type.
abbrev pub add64 : ℕ → ℕ → ℕ
add64 a b = (a + b) % word_mod

-- `a - b`, wrapping, of either type.
abbrev pub sub64 : ℕ → ℕ → ℕ
sub64 a b = (a + word_mod - b) % word_mod

-- `a * b`, wrapping.
abbrev pub mul64 : ℕ → ℕ → ℕ
mul64 a b = a * b % word_mod

-- `a < b` and `a <= b` of the signed types: adding the sign bit turns their order into that of ℕ.
abbrev pub signed_lt : ℕ → ℕ → Bool
signed_lt a b = ltb ((a + sign_bit) % word_mod) ((b + sign_bit) % word_mod)

abbrev pub signed_le : ℕ → ℕ → Bool
signed_le a b = leb ((a + sign_bit) % word_mod) ((b + sign_bit) % word_mod)
