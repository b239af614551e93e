-- ===== src/Encoding.antt =====
-- `base64.RawURLEncoding` of Go's standard library: the alphabet with `-` and `_`, and no padding.
pub mod Roundtrip
use shielder.Base.{
  ◌+◌, ◌-◌, ◌*◌, ◌/◌, ◌%◌, ◌&&◌, ◌||◌, ◌∷◌, ◌==◌, if◌then◌else◌, ℕ, Option, none, some, List, [],
  ltb, leb, nat_eq,
}
use shielder.Shmsg.{Bytes}

-- The value of a character, if it is one of the alphabet's.
sextet : ℕ → Option ℕ
sextet c =
    if leb b'A' c && leb c b'Z'
    then some (c - b'A')
    else if leb b'a' c && leb c b'z'
    then some (c - b'a' + 26)
    else if leb b'0' c && leb c b'9'
    then some (c - b'0' + 52)
    else if c == b'-'
    then some 62
    else if c == b'_'
    then some 63
    else none

-- The decoder skips `\r` and `\n` wherever they stand.
skip_newlines : Bytes → Bytes
skip_newlines [] = []
skip_newlines (c ∷ rest) =
    let others = skip_newlines rest in if c == 10 || c == 13 then others else c ∷ others

sextets : Bytes → Option (List ℕ)
sextets [] = some []
sextets (c ∷ rest) =
    let others = sextets rest in
    elim (sextet c) [ none ↦ none | some v ↦ elim others [ none ↦ none | some vs ↦ some (v ∷ vs) ] ]

-- Four sextets make three bytes; the bits left over at the end are not looked at.
join_sextets : List ℕ → Option Bytes
join_sextets [] = some []
join_sextets (a ∷ []) = none
join_sextets (a ∷ b ∷ []) = some ((a * 4 + b / 16) ∷ [])
join_sextets (a ∷ b ∷ c ∷ []) = some ((a * 4 + b / 16) ∷ (b % 16 * 16 + c / 4) ∷ [])
join_sextets (a ∷ b ∷ c ∷ d ∷ rest) = elim (join_sextets rest) [
  | none ↦ none
  | some bs ↦ some ((a * 4 + b / 16) ∷ (b % 16 * 16 + c / 4) ∷ (c % 4 * 64 + d) ∷ bs)
]

-- `DecodeString`
unfoldable pub decode_string : Bytes → Option Bytes
unfolding sextet skip_newlines sextets join_sextets
decode_string s = elim (sextets (skip_newlines s)) [ none ↦ none | some vs ↦ join_sextets vs ]

-- A character of the alphabet of `base64.RawURLEncoding`.
unfoldable pub base64_digit : ℕ → ℕ
base64_digit v =
    if ltb v 26
    then b'A' + v
    else if ltb v 52
    then b'a' + (v - 26)
    else if ltb v 62
    then b'0' + (v - 52)
    else if v == 62
    then b'-'
    else b'_'

-- `base64.RawURLEncoding.EncodeToString`
unfoldable pub encode_to_string : Bytes → Bytes
unfolding base64_digit
encode_to_string [] = []
encode_to_string (a ∷ []) = base64_digit (a / 4) ∷ base64_digit (a % 4 * 16) ∷ []
encode_to_string (a ∷ b ∷ []) =
    base64_digit (a / 4) ∷ base64_digit (a % 4 * 16 + b / 16) ∷ base64_digit (b % 16 * 4) ∷ []
encode_to_string (a ∷ b ∷ c ∷ rest) =
    base64_digit (a / 4)
    ∷ base64_digit (a % 4 * 16 + b / 16)
    ∷ base64_digit (b % 16 * 4 + c / 64)
    ∷ base64_digit (c % 64)
    ∷ encode_to_string rest
