-- ===== src/Events/Marshal.antt =====
-- The values of an event as text (keyper/shutterevents/marshal.go).
pub mod Roundtrip
pub mod Numbers
use shielder.Base.{
  ◌∷◌, ◌==◌, if◌then◌else◌, ◌>>=◌, ℕ, Bool, not, Option, List, [], map, length, Result, ok, err,
  or_err, nat_eq, list_eq,
}
use shielder.Shmsg.{Bytes, Address}
use shielder.External.{External}
use shielder.Encoding.{decode_string, encode_to_string}
use shielder.Events.Text.{join, split, format_uint, parse_uint, encode_hex, decode_hex}

-- What go-ethereum and the curve library give to the encoding.
pub record Codec (x : External) : Type 0 where
  -- `common.Address.Hex`, `common.HexToAddress` and `common.IsHexAddress`
  pub hex : Address → Bytes
  pub hex_to_address : Bytes → Address
  pub is_hex_address : Bytes → Bool
  -- `hexutil.Encode` and `hexutil.Decode`
  pub encode : Bytes → Bytes
  pub decode : Bytes → Option Bytes
  -- `crypto.FromECDSAPub` of `ExportECDSA`, and `ecies.ImportECDSAPublic` of `crypto.UnmarshalPubkey`
  pub export_pubkey : x.PublicKey → Bytes
  pub import_pubkey : Bytes → Option x.PublicKey
  -- `(*bn256.G1).Marshal`
  pub marshal_g1 : x.curve.G1 → Bytes

pub data DecodeError : Type 0 where
  bad_attributes bad_number bad_address bad_bytes bad_pubkey bad_point bad_type : DecodeError

unfoldable pub encode_uint64 : ℕ → Bytes
encode_uint64 val = format_uint val

unfoldable pub decode_uint64 : Bytes → Result DecodeError ℕ
decode_uint64 val = or_err (parse_uint val) bad_number

module _ {x : External} (codec : Codec x) where
  unfoldable pub encode_addresses : List Address → Bytes
  encode_addresses addr = join (map codec.hex addr)

  -- The loop of `decodeAddresses`.
  unfoldable pub addresses_from : List Bytes → Result DecodeError (List Address)
  addresses_from [] = ok []
  addresses_from (a ∷ rest) =
      let others = addresses_from rest in
      if not (codec.is_hex_address a)
      then err bad_address
      else (others >>= λ res. ok (codec.hex_to_address a ∷ res))

  unfoldable pub decode_addresses : Bytes → Result DecodeError (List Address)
  unfolding addresses_from
  decode_addresses val = if length val == 0 then ok [] else addresses_from (split val)

  unfoldable pub encode_epoch_secret_key_share : x.curve.G1 → Bytes
  encode_epoch_secret_key_share v = codec.encode (codec.marshal_g1 v)

  unfoldable pub decode_epoch_secret_key_share : Bytes → Result DecodeError x.curve.G1
  decode_epoch_secret_key_share v =
      or_err (codec.decode v) bad_bytes >>= λ decoded. or_err (x.unmarshal_g1 decoded) bad_point

  unfoldable pub encode_byte_sequence : List Bytes → Bytes
  encode_byte_sequence v = join (map codec.encode v)

  -- The loop of `decodeByteSequence`.
  unfoldable pub byte_strings_from : List Bytes → Result DecodeError (List Bytes)
  byte_strings_from [] = ok []
  byte_strings_from (v ∷ rest) = do
    bs ← or_err (codec.decode v) bad_bytes
    res ← byte_strings_from rest
    ok (bs ∷ res)

  unfoldable pub decode_byte_sequence : Bytes → Result DecodeError (List Bytes)
  unfolding byte_strings_from
  decode_byte_sequence val = if length val == 0 then ok [] else byte_strings_from (split val)

  unfoldable pub encode_pubkey : x.PublicKey → Bytes
  encode_pubkey pubkey = encode_to_string (codec.export_pubkey pubkey)

  unfoldable pub decode_pubkey : Bytes → Result DecodeError x.PublicKey
  decode_pubkey val =
      or_err (decode_string val) bad_bytes >>= λ bs. or_err (codec.import_pubkey bs) bad_pubkey

  unfoldable pub encode_address : Address → Bytes
  encode_address a = codec.hex a

  unfoldable pub decode_address : Bytes → Result DecodeError Address
  decode_address v =
      let a = codec.hex_to_address v in if codec.hex a == v then ok a else err bad_address

module _ (x : External) where
  unfoldable pub encode_gammas : List x.curve.G2 → Bytes
  encode_gammas gammas = join (map (λ g. encode_hex (x.curve.marshal_g2 g)) gammas)

  -- The loop of `decodeGammas`.
  unfoldable pub gammas_from : List Bytes → Result DecodeError (List x.curve.G2)
  gammas_from [] = ok []
  gammas_from (p ∷ rest) = do
    marshaled ← or_err (decode_hex p) bad_bytes
    g ← or_err (x.unmarshal_g2 marshaled) bad_point
    res ← gammas_from rest
    ok (g ∷ res)

  unfoldable pub decode_gammas : Bytes → Result DecodeError (List x.curve.G2)
  unfolding gammas_from
  decode_gammas val = gammas_from (split val)
