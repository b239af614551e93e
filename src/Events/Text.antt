-- ===== src/Events/Text.antt =====
-- What the encoding of events takes from Go's standard library (strconv, strings and
-- encoding/hex). A string is the list of its bytes.
pub mod Roundtrip
use shielder.Base.{
  ◌+◌, ◌-◌, ◌*◌, ◌/◌, ◌%◌, ◌&&◌, ◌∷◌, ◌++◌, ◌==◌, if◌then◌else◌, ℕ, zero, suc, Option, none, some,
  List, [], ltb, leb, word_mod, nat_eq,
}
use shielder.Shmsg.{Bytes}

abbrev pub comma : ℕ
comma = b','

-- `strings.Join(parts, ",")`
unfoldable pub join : List Bytes → Bytes
join [] = []
join (p ∷ []) = p
join (p ∷ q ∷ rest) = p ++ comma ∷ join (q ∷ rest)

-- Putting a byte in front of the first part.
unfoldable pub extend : ℕ → List Bytes → List Bytes
extend c [] = (c ∷ []) ∷ []
extend c (p ∷ rest) = (c ∷ p) ∷ rest

-- `strings.Split(s, ",")`, which has at least one part.
unfoldable pub split : Bytes → List Bytes
unfolding extend
split [] = [] ∷ []
split (c ∷ rest) = let parts = split rest in if c == comma then [] ∷ parts else extend c parts

-- `strconv.FormatUint(n, 10)`, of at most so many digits.
unfoldable pub format_digits : ℕ → ℕ → Bytes
format_digits zero n = []
format_digits (suc fuel) n =
    let front = format_digits fuel (n / 10) in
    let last : ℕ = b'0' + n % 10 in if ltb n 10 then last ∷ [] else front ++ last ∷ []

unfoldable pub format_uint : ℕ → Bytes
unfolding format_digits
format_uint n = format_digits 20 n

-- The value of digits behind those that are read already.
unfoldable pub parse_digits : ℕ → Bytes → Option ℕ
parse_digits value [] = some value
parse_digits value (c ∷ rest) =
    let more = parse_digits (value * 10 + (c - b'0')) rest in
    if leb b'0' c && leb c b'9' then more else none

-- `strconv.ParseUint(s, 10, 64)`
unfoldable pub parse_uint : Bytes → Option ℕ
unfolding parse_digits
parse_uint [] = none
parse_uint (c ∷ rest) = elim (parse_digits 0 (c ∷ rest)) [
  | none ↦ none
  | some n ↦ if ltb n word_mod then some n else none
]

-- A digit of `hex.EncodeToString`.
unfoldable pub hex_digit : ℕ → ℕ
hex_digit n = if ltb n 10 then b'0' + n else b'a' + (n - 10)

-- `hex.EncodeToString`
unfoldable pub encode_hex : Bytes → Bytes
unfolding hex_digit
encode_hex [] = []
encode_hex (b ∷ rest) = hex_digit (b / 16) ∷ hex_digit (b % 16) ∷ encode_hex rest

-- The value of a digit, of either case.
unfoldable pub hex_value : ℕ → Option ℕ
hex_value c =
    if leb b'0' c && leb c b'9'
    then some (c - b'0')
    else if leb b'a' c && leb c b'f'
    then some (c - b'a' + 10)
    else if leb b'A' c && leb c b'F'
    then some (c - b'A' + 10)
    else none

-- `hex.DecodeString`
unfoldable pub decode_hex : Bytes → Option Bytes
unfolding hex_value
decode_hex [] = some []
decode_hex (c ∷ []) = none
decode_hex (c ∷ d ∷ rest) =
    let others = decode_hex rest in
    elim (hex_value c) [
      | none ↦ none
      | some h ↦ elim (hex_value d) [
        | none ↦ none
        | some l ↦ elim others [ none ↦ none | some bs ↦ some ((h * 16 + l) ∷ bs) ]
      ]
    ]
