-- ===== src/Events/Marshal/Roundtrip.antt =====
-- Each kind of value survives its encoding as text, if the libraries' encodings do (marshal.go).
use shielder.Base.{
  ◌^◌, ◌<◌, ◌≡◌, ◌∷◌, ◌==◌, ℕ, refl, true, false, some, List, [], map, arith, beq_self, length,
  length-append, All, word_mod, ok, nat_eq, list_eq,
}
use shielder.Shmsg.{Bytes, Address}
use shielder.External.{External}
use shielder.Shcrypto.Padding.Blocks.{IsByte}
use shielder.Encoding.Roundtrip.{decode_string-encode_to_string}
use shielder.Events.Text.{comma, join, encode_hex}
use shielder.Events.Text.Roundtrip.{
  HasNoComma, split-join, parse_uint-format_uint, decode_hex-encode_hex, encode_hex-HasNoComma,
}
use shielder.Events.Marshal.{
  Codec, encode_uint64, decode_uint64, addresses_from, encode_addresses, decode_addresses,
  encode_epoch_secret_key_share, decode_epoch_secret_key_share, byte_strings_from,
  encode_byte_sequence, decode_byte_sequence, encode_pubkey, decode_pubkey, encode_address,
  decode_address, gammas_from, encode_gammas, decode_gammas,
}

-- 20 bytes.
abbrev pub IsAddress : Address → Type 0
IsAddress a = a < 2 ^ 160

-- A part of a list that is joined by commas.
abbrev pub IsPart : Bytes → Type 0
IsPart p = HasNoComma p × (0 < length p)

-- What the encodings of go-ethereum and of the curve library do.
pub record CodecLaw {x : External} (codec : Codec x) : Type 0 where
  pub hex_back : (a : Address) → IsAddress a → codec.hex_to_address (codec.hex a) ≡ a
  pub hex_checked : (a : Address) → codec.is_hex_address (codec.hex a) ≡ true
  pub hex_part : (a : Address) → IsPart (codec.hex a)
  pub encode_back : (bs : Bytes) → All IsByte bs → codec.decode (codec.encode bs) ≡ some bs
  pub encode_part : (bs : Bytes) → All IsByte bs → IsPart (codec.encode bs)
  pub export_back : (k : x.PublicKey) → codec.import_pubkey (codec.export_pubkey k) ≡ some k
  pub g1_back : (p : x.curve.G1) → x.unmarshal_g1 (codec.marshal_g1 p) ≡ some p
  pub g2_back : (p : x.curve.G2) → x.unmarshal_g2 (x.curve.marshal_g2 p) ≡ some p

length-join : (p : Bytes) (rest : List Bytes) → 0 < length p → 0 < length (join (p ∷ rest))
unfolding join
length-join p [] h = h
length-join p (q ∷ rest) h = rw (length-append p (comma ∷ join (q ∷ rest))) (omega (arith, h))

pub decode-encode_uint64 : (n : ℕ) → n < word_mod → decode_uint64 (encode_uint64 n) ≡ ok n
unfolding decode_uint64 encode_uint64
decode-encode_uint64 n h = rw (parse_uint-format_uint n h) refl

module _ {x : External} (codec : Codec x) (law : CodecLaw codec) where
  pub decode-encode_address :
      (a : Address) → IsAddress a → decode_address codec (encode_address codec a) ≡ ok a
  unfolding decode_address encode_address
  decode-encode_address a h = rw (law.hex_back a h, beq_self (codec.hex a)) refl

  hex_parts : (xs : List Address) → All HasNoComma (map codec.hex xs)
  hex_parts [] = tt
  hex_parts (a ∷ rest) = ((law.hex_part a).0, hex_parts rest)

  addresses_back :
      (xs : List Address) → All IsAddress xs → addresses_from codec (map codec.hex xs) ≡ ok xs
  unfolding addresses_from
  addresses_back [] h = refl
  addresses_back (a ∷ rest) h =
      rw (law.hex_checked a) (rw (law.hex_back a h.0) (rw (addresses_back rest h.1) refl))

  pub decode-encode_addresses :
      (xs : List Address)
      → All IsAddress xs
      → decode_addresses codec (encode_addresses codec xs) ≡ ok xs
  unfolding decode_addresses encode_addresses join
  decode-encode_addresses [] h = refl
  decode-encode_addresses (a ∷ rest) h =
      let text = join (codec.hex a ∷ map codec.hex rest) in
      let long = length-join (codec.hex a) (map codec.hex rest) ((law.hex_part a).1) in
      let some_text : (length text == 0) ≡ false = ground (arith, long) in
      rw some_text (
        rw (split-join (codec.hex a) (map codec.hex rest) (hex_parts (a ∷ rest)))
          (addresses_back (a ∷ rest) h))

  bytes_parts : (xs : List Bytes) → All (All IsByte) xs → All HasNoComma (map codec.encode xs)
  bytes_parts [] h = tt
  bytes_parts (b ∷ rest) h = ((law.encode_part b h.0).0, bytes_parts rest h.1)

  byte_strings_back :
      (xs : List Bytes)
      → All (All IsByte) xs
      → byte_strings_from codec (map codec.encode xs) ≡ ok xs
  unfolding byte_strings_from
  byte_strings_back [] h = refl
  byte_strings_back (b ∷ rest) h = rw (law.encode_back b h.0) (rw (byte_strings_back rest h.1) refl)

  pub decode-encode_byte_sequence :
      (xs : List Bytes)
      → All (All IsByte) xs
      → decode_byte_sequence codec (encode_byte_sequence codec xs) ≡ ok xs
  unfolding decode_byte_sequence encode_byte_sequence join
  decode-encode_byte_sequence [] h = refl
  decode-encode_byte_sequence (b ∷ rest) h =
      let text = join (codec.encode b ∷ map codec.encode rest) in
      let long = length-join (codec.encode b) (map codec.encode rest) ((law.encode_part b h.0).1) in
      let some_text : (length text == 0) ≡ false = ground (arith, long) in
      rw some_text (
        rw (split-join (codec.encode b) (map codec.encode rest) (bytes_parts (b ∷ rest) h))
          (byte_strings_back (b ∷ rest) h))

  pub decode-encode_pubkey :
      (k : x.PublicKey)
      → All IsByte (codec.export_pubkey k)
      → decode_pubkey codec (encode_pubkey codec k) ≡ ok k
  unfolding decode_pubkey encode_pubkey
  decode-encode_pubkey k h =
      rw (decode_string-encode_to_string (codec.export_pubkey k) h) (rw (law.export_back k) refl)

  pub decode-encode_epoch_secret_key_share :
      (v : x.curve.G1)
      → All IsByte (codec.marshal_g1 v)
      → decode_epoch_secret_key_share codec (encode_epoch_secret_key_share codec v) ≡ ok v
  unfolding decode_epoch_secret_key_share encode_epoch_secret_key_share
  decode-encode_epoch_secret_key_share v h =
      rw (law.encode_back (codec.marshal_g1 v) h) (rw (law.g1_back v) refl)

  -- Points whose bytes are bytes.
  abbrev pub IsWritten : x.curve.G2 → Type 0
  IsWritten g = All IsByte (x.curve.marshal_g2 g)

  abbrev written : x.curve.G2 → Bytes
  written g = encode_hex (x.curve.marshal_g2 g)

  gamma_parts : (gs : List x.curve.G2) → All IsWritten gs → All HasNoComma (map written gs)
  gamma_parts [] h = tt
  gamma_parts (g ∷ rest) h =
      (encode_hex-HasNoComma (x.curve.marshal_g2 g) h.0, gamma_parts rest h.1)

  gammas_back : (gs : List x.curve.G2) → All IsWritten gs → gammas_from x (map written gs) ≡ ok gs
  unfolding gammas_from
  gammas_back [] h = refl
  gammas_back (g ∷ rest) h =
      rw (decode_hex-encode_hex (x.curve.marshal_g2 g) h.0)
        (rw (law.g2_back g) (rw (gammas_back rest h.1) refl))

  pub decode-encode_gammas :
      (g : x.curve.G2) (rest : List x.curve.G2)
      → All IsWritten (g ∷ rest)
      → decode_gammas x (encode_gammas x (g ∷ rest)) ≡ ok (g ∷ rest)
  unfolding decode_gammas encode_gammas
  decode-encode_gammas g rest h =
      rw (split-join (written g) (map written rest) (gamma_parts (g ∷ rest) h))
        (gammas_back (g ∷ rest) h)
