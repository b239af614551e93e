-- ===== src/Tests/Events.antt =====
-- An apology is emitted, and read back.
use shielder.Base.{
  ◌+◌, ◌-◌, ◌≡◌, ◌∷◌, ℕ, zero, suc, refl, ap, true, Option, none, some, [], arith, length,
  replicate, ok, length-replicate,
}
use shielder.Shmsg.{Bytes}
use shielder.Tests.Fixtures.{test_libraries}
use shielder.Events
use shielder.Events.{apology_event}
use shielder.Events.Text.{encode_hex, decode_hex}
use shielder.Events.Text.Roundtrip.{HasNoComma, decode_hex-encode_hex, encode_hex-HasNoComma}
use shielder.Events.Marshal.{Codec}
use shielder.Events.Marshal.Roundtrip.{CodecLaw}
use shielder.Events.Make.{make_abci_event, make_event}
use shielder.Events.Make.Roundtrip.{make_event-make_abci_event}

-- An address is written as so many characters, and bytes as a character and their digits.
abbrev behind_first : Bytes → Option Bytes
behind_first [] = none
behind_first (c ∷ rest) = decode_hex rest

abbrev test_codec : Codec test_libraries
test_codec = record {
  hex = λ a. replicate (a + 1) 48;
  hex_to_address = λ s. length s - 1;
  is_hex_address = λ s. true;
  encode = λ bs. 48 ∷ encode_hex bs;
  decode = behind_first;
  export_pubkey = λ k. k;
  import_pubkey = λ bs. some bs;
  marshal_g1 = λ p. p ∷ [];
}

zeros-HasNoComma : (n : ℕ) → HasNoComma (replicate n 48)
zeros-HasNoComma zero = tt
zeros-HasNoComma (suc n) = (refl, zeros-HasNoComma n)

test_codec-CodecLaw : CodecLaw test_codec
test_codec-CodecLaw = record {
  hex_back = λ a h. omega (arith, length-replicate {A = ℕ} (a + 1) 48);
  hex_checked = λ a. refl;
  hex_part = λ a. (zeros-HasNoComma (a + 1), omega (arith, length-replicate {A = ℕ} (a + 1) 48));
  encode_back = λ bs h. decode_hex-encode_hex bs h;
  encode_part = λ bs h. ((refl, encode_hex-HasNoComma bs h), omega arith);
  export_back = λ k. refl;
  g1_back = λ p. ap some (omega arith);
  g2_back = λ p. ap some (omega arith);
}

abbrev test_apology : Events.Apology
test_apology = record {
  height = 0;
  eon = 7;
  sender = 5;
  accusers = 1 ∷ 2 ∷ [];
  poly_eval = 300 ∷ 0 ∷ [];
}

make_event-make_abci_event_example :
    make_event test_codec (make_abci_event test_codec (apology_event test_apology)) 21
    ≡ ok (apology_event (record test_apology { height = 21 }))
make_event-make_abci_event_example =
    make_event-make_abci_event test_codec test_codec-CodecLaw 21 (apology_event test_apology)
      (omega arith, omega arith, (omega arith, (omega arith, tt)))
