-- ===== src/Events/Marshal/Numbers.antt =====
-- A number is the one that its bytes spell.
use shielder.Base.{
  ◌/◌, ◌%◌, ◌≤◌, ◌≡◌, ◌∙◌, ◌∷◌, ◌==◌, ℕ, zero, suc, refl, ap, ap₂, inl, inr, List, [], map, arith,
  Bool-cases, All, nat_eq,
}
use shielder.Shmsg.{Bytes}
use shielder.Shmsg.New.{bytes_from, int_bytes}
use shielder.App.Messages.{set_bytes_from, set_bytes}
use shielder.Shcrypto.Padding.Blocks.{IsByte}

set_bytes_from-bytes_from :
    (fuel n : ℕ) (rest : Bytes)
    → n ≤ fuel
    → set_bytes_from 0 (bytes_from fuel n rest) ≡ set_bytes_from n rest
unfolding set_bytes_from bytes_from
set_bytes_from-bytes_from zero n rest h = ap (λ k. set_bytes_from k rest) (omega (arith, h))
set_bytes_from-bytes_from (suc fuel) n rest h = elim (Bool-cases (n == 0)) [
  | inl nothing ↦
      rw (nothing, bytes_from) (ap (λ k. set_bytes_from k rest) (ground (arith, nothing)))
  | inr more ↦
      rw (more, bytes_from)
        (set_bytes_from-bytes_from fuel (n / 256) ((n % 256) ∷ rest) (ground (arith, more, h))
          ∙ ap (λ k. set_bytes_from k rest) (omega arith))
]

bytes_from-IsByte :
    (fuel n : ℕ) (rest : Bytes) → All IsByte rest → All IsByte (bytes_from fuel n rest)
unfolding bytes_from
bytes_from-IsByte zero n rest h = h
bytes_from-IsByte (suc fuel) n rest h = elim (Bool-cases (n == 0)) [
  | inl nothing ↦ rw (nothing, bytes_from) h
  | inr more ↦
      rw (more, bytes_from) (bytes_from-IsByte fuel (n / 256) ((n % 256) ∷ rest) (omega arith, h))
]

pub set_bytes-int_bytes : (ns : List ℕ) → map set_bytes (map int_bytes ns) ≡ ns
unfolding set_bytes int_bytes
set_bytes-int_bytes [] = refl
set_bytes-int_bytes (n ∷ ns) =
    ap₂ ◌∷◌ (set_bytes_from-bytes_from n n [] (omega arith)) (set_bytes-int_bytes ns)

pub int_bytes-IsByte : (ns : List ℕ) → All (All IsByte) (map int_bytes ns)
unfolding int_bytes
int_bytes-IsByte [] = tt
int_bytes-IsByte (n ∷ ns) = (bytes_from-IsByte n n [] tt, int_bytes-IsByte ns)
