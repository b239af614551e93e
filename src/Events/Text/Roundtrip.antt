-- ===== src/Events/Text/Roundtrip.antt =====
-- Numbers, lists of strings and bytes survive being written as text and read back.
use shielder.Base.{
  ◌+◌, ◌-◌, ◌*◌, ◌/◌, ◌%◌, ◌^◌, ◌<◌, ◌≡◌, ◌∙◌, ◌&&◌, ◌∷◌, ◌++◌, ◌==◌, ℕ, zero, suc, refl, ap, inl,
  inr, false, some, List, [], arith, ltb, leb, Bool-cases, length, length-append, All, word_mod,
  lt_of_ltb, nat_eq,
}
use mathlib.Core.Path.{ap, ◌∙◌}
use native.Mathlib.Nat.{pow-suc}
use shielder.Shmsg.{Bytes}
use shielder.Shcrypto.Padding.Blocks.{IsByte}
use shielder.Events.Text.{
  comma, join, extend, split, format_digits, format_uint, parse_digits, parse_uint, hex_digit,
  encode_hex, hex_value, decode_hex,
}

abbrev pub HasNoComma : Bytes → Type 0
HasNoComma = All (λ c. (c == comma) ≡ false)

split_last : (p : Bytes) → HasNoComma p → split p ≡ p ∷ []
unfolding split extend
split_last [] h = refl
split_last (c ∷ p) h = rw (h.0, split_last p h.1) refl

split_front : (p s : Bytes) → HasNoComma p → split (p ++ comma ∷ s) ≡ p ∷ split s
unfolding split extend
split_front [] s h = refl
split_front (c ∷ p) s h = rw (h.0, split_front p s h.1) refl

pub split-join :
    (p : Bytes) (rest : List Bytes) → All HasNoComma (p ∷ rest) → split (join (p ∷ rest)) ≡ p ∷ rest
unfolding join
split-join p [] h = split_last p h.0
split-join p (q ∷ rest) h = split_front p (join (q ∷ rest)) h.0 ∙ ap (◌∷◌ p) (split-join q rest h.1)

parse_digits-append :
    (v w : ℕ) (s : Bytes) (d : ℕ)
    → parse_digits v s ≡ some w
    → d < 10
    → parse_digits v (s ++ (b'0' + d) ∷ []) ≡ some (w * 10 + d)
unfolding parse_digits
parse_digits-append v w [] d h small = ground (arith, h, small)
parse_digits-append v w (c ∷ s) d h small = elim (Bool-cases (leb b'0' c && leb c b'9')) [
  | inl digit ↦ rw digit (parse_digits-append (v * 10 + (c - b'0')) w s d (rw digit at h) small)
  | inr other ↦ absurd (ground (arith, other, h))
]

one_digit : (n : ℕ) → n < 10 → parse_digits 0 ((b'0' + n % 10) ∷ []) ≡ some n
unfolding parse_digits
one_digit n h = ground (arith, h)

parse_digits-format_digits :
    (fuel n : ℕ) → n < 10 ^ fuel → parse_digits 0 (format_digits fuel n) ≡ some n
unfolding format_digits parse_digits
parse_digits-format_digits zero n h = ap some (omega (arith, h))
parse_digits-format_digits (suc fuel) n h = elim (Bool-cases (ltb n 10)) [
  | inl last ↦ rw last (one_digit n (lt_of_ltb n 10 last))
  | inr more ↦
      let p = pow-suc 10 fuel in
      let front = parse_digits-format_digits fuel (n / 10) (omega (arith, h, p)) in
      rw more (
        parse_digits-append 0 (n / 10) (format_digits fuel (n / 10)) (n % 10) front (omega arith)
        ∙ ap some (omega arith))
]

is_some_text : (fuel n : ℕ) → 0 < fuel → 0 < length (format_digits fuel n)
unfolding format_digits
is_some_text zero n h = absurd (omega (arith, h))
is_some_text (suc fuel) n h = elim (Bool-cases (ltb n 10)) [
  | inl last ↦ rw last (omega arith)
  | inr more ↦
      rw (more, length-append (format_digits fuel (n / 10)) ((b'0' + n % 10) ∷ [])) (omega arith)
]

parse_uint-digits :
    (s : Bytes) (n : ℕ)
    → 0 < length s
    → parse_digits 0 s ≡ some n
    → n < word_mod
    → parse_uint s ≡ some n
unfolding parse_uint
parse_uint-digits [] n h p w = absurd (omega (arith, h))
parse_uint-digits (c ∷ s) n h p w = rw (p, parse_uint) (ground (arith, w))

pub parse_uint-format_uint : (n : ℕ) → n < word_mod → parse_uint (format_uint n) ≡ some n
unfolding format_uint
parse_uint-format_uint n h =
    parse_uint-digits (format_digits 20 n) n (is_some_text 20 n (omega arith))
      (parse_digits-format_digits 20 n (omega (arith, h))) h

hex_value-hex_digit : (n : ℕ) → n < 16 → hex_value (hex_digit n) ≡ some n
unfolding hex_value hex_digit
hex_value-hex_digit n h = ground (arith, h)

pub decode_hex-encode_hex : (bs : Bytes) → All IsByte bs → decode_hex (encode_hex bs) ≡ some bs
unfolding decode_hex encode_hex
decode_hex-encode_hex [] h = refl
decode_hex-encode_hex (b ∷ bs) h =
    let high : b / 16 < 16 = omega (arith, h.0) in
    let low : b % 16 < 16 = omega arith in
    rw (hex_value-hex_digit (b / 16) high, decode_hex)
      (rw (hex_value-hex_digit (b % 16) low)
        (rw (decode_hex-encode_hex bs h.1) (ap (λ c. some (c ∷ bs)) (omega arith))))

not_comma : (n : ℕ) → n < 16 → (hex_digit n == comma) ≡ false
unfolding hex_digit
not_comma n h = ground (arith, h)

pub encode_hex-HasNoComma : (bs : Bytes) → All IsByte bs → HasNoComma (encode_hex bs)
unfolding encode_hex
encode_hex-HasNoComma [] h = tt
encode_hex-HasNoComma (b ∷ bs) h = (
  not_comma (b / 16) (omega (arith, h.0)),
  (not_comma (b % 16) (omega arith), encode_hex-HasNoComma bs h.1),
)
