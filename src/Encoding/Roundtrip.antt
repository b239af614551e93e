-- ===== src/Encoding/Roundtrip.antt =====
-- What is encoded by `base64.RawURLEncoding` is decoded to the same bytes.
use shielder.Base.{
  ◌+◌, ◌*◌, ◌/◌, ◌%◌, ◌<◌, ◌≡◌, ◌∙◌, ◌||◌, ◌∷◌, ◌==◌, ℕ, refl, ap, ap₂, false, some, List, [],
  arith, All, nat_eq,
}
use mathlib.Core.Path.{ap, ap₂, ◌∙◌}
use shielder.Shmsg.{Bytes}
use shielder.Shcrypto.Padding.Blocks.{IsByte}
use shielder.Encoding.{
  sextet, skip_newlines, sextets, join_sextets, decode_string, base64_digit, encode_to_string,
}

sextet-base64_digit : (v : ℕ) → v < 64 → sextet (base64_digit v) ≡ some v
unfolding sextet base64_digit
sextet-base64_digit v h = ground (arith, h)

not_newline : (v : ℕ) → v < 64 → (base64_digit v == 10 || base64_digit v == 13) ≡ false
unfolding base64_digit
not_newline v h = ground (arith, h)

kept :
    (v : ℕ) (s : Bytes)
    → v < 64
    → skip_newlines (base64_digit v ∷ s) ≡ base64_digit v ∷ skip_newlines s
unfolding skip_newlines
kept v s h = rw (not_newline v h) refl

-- Sextets that are below 64, as the characters of the alphabet.
sextets-base64_digit :
    (v : ℕ) (s : Bytes) (vs : List ℕ)
    → v < 64
    → sextets (skip_newlines s) ≡ some vs
    → sextets (skip_newlines (base64_digit v ∷ s)) ≡ some (v ∷ vs)
unfolding sextets
sextets-base64_digit v s vs h p =
    ap sextets (kept v s h) ∙ rw (sextet-base64_digit v h, sextets) (rw p refl)

-- The sextets of bytes.
sextets_of : Bytes → List ℕ
sextets_of [] = []
sextets_of (a ∷ []) = (a / 4) ∷ (a % 4 * 16) ∷ []
sextets_of (a ∷ b ∷ []) = (a / 4) ∷ (a % 4 * 16 + b / 16) ∷ (b % 16 * 4) ∷ []
sextets_of (a ∷ b ∷ c ∷ rest) =
    (a / 4) ∷ (a % 4 * 16 + b / 16) ∷ (b % 16 * 4 + c / 64) ∷ (c % 64) ∷ sextets_of rest

sextets-encode_to_string :
    (bs : Bytes)
    → All IsByte bs
    → sextets (skip_newlines (encode_to_string bs)) ≡ some (sextets_of bs)
unfolding encode_to_string sextets_of sextets skip_newlines
sextets-encode_to_string [] h = refl
sextets-encode_to_string (a ∷ []) h =
    sextets-base64_digit (a / 4) (base64_digit (a % 4 * 16) ∷ []) _ (omega (arith, h.0))
      (sextets-base64_digit (a % 4 * 16) [] [] (omega arith) refl)
sextets-encode_to_string (a ∷ b ∷ []) h =
    sextets-base64_digit (a / 4)
      (base64_digit (a % 4 * 16 + b / 16) ∷ base64_digit (b % 16 * 4) ∷ []) _ (omega (arith, h.0))
      (sextets-base64_digit (a % 4 * 16 + b / 16) (base64_digit (b % 16 * 4) ∷ []) _
        (omega (arith, h.1.0)) (sextets-base64_digit (b % 16 * 4) [] [] (omega arith) refl))
sextets-encode_to_string (a ∷ b ∷ c ∷ rest) h =
    let t = encode_to_string rest in
    sextets-base64_digit (a / 4)
      (base64_digit (a % 4 * 16 + b / 16)
        ∷ base64_digit (b % 16 * 4 + c / 64)
        ∷ base64_digit (c % 64)
        ∷ t)
      _ (omega (arith, h.0))
      (sextets-base64_digit (a % 4 * 16 + b / 16)
        (base64_digit (b % 16 * 4 + c / 64) ∷ base64_digit (c % 64) ∷ t) _ (omega (arith, h.1.0))
        (sextets-base64_digit (b % 16 * 4 + c / 64) (base64_digit (c % 64) ∷ t) _
          (omega (arith, h.1.1.0))
          (sextets-base64_digit (c % 64) t _ (omega arith)
            (sextets-encode_to_string rest h.1.1.1))))

join_sextets-sextets_of : (bs : Bytes) → All IsByte bs → join_sextets (sextets_of bs) ≡ some bs
unfolding join_sextets sextets_of
join_sextets-sextets_of [] h = refl
join_sextets-sextets_of (a ∷ []) h = ap (λ x. some (x ∷ [])) (omega (arith, h.0))
join_sextets-sextets_of (a ∷ b ∷ []) h =
    ap₂ (λ x y. some (x ∷ y ∷ [])) (omega (arith, h.0, h.1.0)) (omega (arith, h.0, h.1.0))
join_sextets-sextets_of (a ∷ b ∷ c ∷ rest) h = rw (join_sextets-sextets_of rest h.1.1.1) (
    let x : a / 4 * 4 + (a % 4 * 16 + b / 16) / 16 ≡ a = omega (arith, h.1.0) in
    let y : (a % 4 * 16 + b / 16) % 16 * 16 + (b % 16 * 4 + c / 64) / 4 ≡ b =
      omega (arith, h.1.0, h.1.1.0) in
    let z : (b % 16 * 4 + c / 64) % 4 * 64 + c % 64 ≡ c = omega (arith, h.1.1.0) in
    rw (x, y, z) refl)

pub decode_string-encode_to_string :
    (bs : Bytes) → All IsByte bs → decode_string (encode_to_string bs) ≡ some bs
unfolding decode_string
decode_string-encode_to_string bs h =
    rw (sextets-encode_to_string bs h, decode_string) (join_sextets-sextets_of bs h)
