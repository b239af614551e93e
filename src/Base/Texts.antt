-- ===== src/Base/Texts.antt =====
-- Whole texts, which are only compared.
use Prim.Native.String.{String}
use text.Mathlib.TextEquality.{eq_iff}
use text.Mathlib.Text
use shielder.Base.Tests.{Eq}

instance abbrev pub string_eq : Eq String
string_eq = record { beq = text.Mathlib.Text.◌==◌; beq_iff = λ a b. eq_iff a b }
