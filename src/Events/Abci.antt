-- ===== src/Events/Abci.antt =====
-- Events as tendermint's `abcitypes.Event` (keyper/shutterevents/events.go, helpers.go and
-- evtype/evtype.go).
use shielder.Base.{
  ◌∷◌, ◌==◌, if◌then◌else◌, ◌>>◌, ◌>>=◌, ℕ, Bool, true, false, not, Option, none, some, List, [],
  map, ltb, length, get_elem?, Result, ok, nat_eq, string_eq,
}
use Prim.Native.String.{String}
use shielder.Shmsg.{Bytes, Address}
use shielder.Shmsg.New.{int_bytes}
use shielder.External.{External}
use shielder.Config.{BatchConfig}
use shielder.App.Messages.{set_bytes}
use shielder.Events.{Accusation, Apology, EonStarted}
use shielder.Events.Marshal.{
  Codec, DecodeError, bad_attributes, encode_uint64, decode_uint64, encode_addresses,
  decode_addresses, encode_epoch_secret_key_share, encode_byte_sequence, decode_byte_sequence,
  encode_address, decode_address, encode_gammas,
}

pub record EventAttribute : Type 0 where
  pub key : String
  pub value : Bytes
  pub index : Bool

pub record AbciEvent : Type 0 where
  pub event_type : String
  pub attributes : List EventAttribute

unfoldable pub new_uint_pair : String → ℕ → EventAttribute
new_uint_pair key value = record { key = key; value = encode_uint64 value; index = true }

-- An attribute that is not indexed, with the value encoded.
unfoldable pub plain_pair : String → Bytes → EventAttribute
plain_pair key value = record { key = key; value = value; index = false }

-- The loop of `expectAttributes` over the names.
unfoldable pub expect_names : List EventAttribute → List String → Option DecodeError
expect_names attributes [] = none
expect_names [] (n ∷ names) = some bad_attributes
expect_names (a ∷ attributes) (n ∷ names) =
    let others = expect_names attributes names in
    if not (a.key == n) then some bad_attributes else others

unfoldable pub expect_attributes : AbciEvent → List String → Option DecodeError
unfolding expect_names
expect_attributes ev names =
    if ltb (length (ev.attributes)) (length names)
    then some bad_attributes
    else expect_names (ev.attributes) names

-- `ev.Attributes[i].Value`, where `expectAttributes` has found an attribute.
abbrev pub value_at : AbciEvent → ℕ → Bytes
value_at ev i = elim (get_elem? (ev.attributes) i) [ none ↦ [] | some a ↦ a.value ]

unfoldable pub batch_config_abci_event : {x : External} → Codec x → BatchConfig → AbciEvent
batch_config_abci_event codec bc = record {
  event_type = "shielder.batch-config";
  attributes =
      new_uint_pair "StartBatchIndex" (bc.start_batch_index)
      ∷ plain_pair "Threshold" (encode_uint64 (bc.threshold))
      ∷ plain_pair "Keypers" (encode_addresses codec (bc.keypers))
      ∷ plain_pair "ConfigIndex" (encode_uint64 (bc.config_index))
      ∷ [];
}

unfoldable pub eon_started_abci_event : EonStarted → AbciEvent
eon_started_abci_event msg = record {
  event_type = "shielder.eon-started";
  attributes = new_uint_pair "Eon" (msg.eon) ∷ new_uint_pair "BatchIndex" (msg.batch_index) ∷ [];
}

unfoldable pub make_eon_started : AbciEvent → ℕ → Result DecodeError EonStarted
make_eon_started ev height = expect_attributes ev ("Eon" ∷ "BatchIndex" ∷ []) >> (do
  eon ← decode_uint64 (value_at ev 0)
  batch_index ← decode_uint64 (value_at ev 1)
  ok (record { height = height; eon = eon; batch_index = batch_index }))

module _ {x : External} (codec : Codec x) where
  unfoldable pub new_address_pair : String → Address → EventAttribute
  new_address_pair key value = record {
    key = key;
    value = encode_address codec value;
    index = true;
  }

  unfoldable pub new_addresses_pair : String → List Address → EventAttribute
  new_addresses_pair key value = plain_pair key (encode_addresses codec value)

  unfoldable pub new_byte_sequence_pair : String → List Bytes → EventAttribute
  new_byte_sequence_pair key value = plain_pair key (encode_byte_sequence codec value)

  unfoldable pub new_gammas : String → List x.curve.G2 → EventAttribute
  new_gammas key gammas = plain_pair key (encode_gammas x gammas)

  unfoldable pub new_epoch_secret_key_share : String → x.curve.G1 → EventAttribute
  new_epoch_secret_key_share key share = plain_pair key (encode_epoch_secret_key_share codec share)

  unfoldable pub accusation_abci_event : Accusation → AbciEvent
  accusation_abci_event acc = record {
    event_type = "shielder.accusation-registered";
    attributes =
        new_address_pair "Sender" (acc.sender)
        ∷ new_uint_pair "Eon" (acc.eon)
        ∷ new_addresses_pair "Accused" (acc.accused)
        ∷ [];
  }

  unfoldable pub make_accusation : AbciEvent → ℕ → Result DecodeError Accusation
  make_accusation ev height = expect_attributes ev ("Sender" ∷ "Eon" ∷ "Accused" ∷ []) >> (do
    sender ← decode_address codec (value_at ev 0)
    eon ← decode_uint64 (value_at ev 1)
    accused ← decode_addresses codec (value_at ev 2)
    ok (record { height = height; sender = sender; eon = eon; accused = accused }))

  unfoldable pub apology_abci_event : Apology → AbciEvent
  apology_abci_event msg = record {
    event_type = "shielder.apology-registered";
    attributes =
        new_address_pair "Sender" (msg.sender)
        ∷ new_uint_pair "Eon" (msg.eon)
        ∷ new_addresses_pair "Accusers" (msg.accusers)
        ∷ new_byte_sequence_pair "PolyEvals" (map int_bytes (msg.poly_eval))
        ∷ [];
  }

  unfoldable pub make_apology : AbciEvent → ℕ → Result DecodeError Apology
  make_apology ev height =
      expect_attributes ev ("Sender" ∷ "Eon" ∷ "Accusers" ∷ "PolyEvals" ∷ []) >> (do
        sender ← decode_address codec (value_at ev 0)
        eon ← decode_uint64 (value_at ev 1)
        accusers ← decode_addresses codec (value_at ev 2)
        poly_eval ← decode_byte_sequence codec (value_at ev 3)
        ok (record {
          height = height;
          sender = sender;
          eon = eon;
          accusers = accusers;
          poly_eval = map set_bytes poly_eval;
        }))

  -- What the event of a config does not hold is left at its zero value.
  unfoldable pub make_batch_config : AbciEvent → ℕ → Result DecodeError BatchConfig
  make_batch_config ev height =
      expect_attributes ev ("StartBatchIndex" ∷ "Threshold" ∷ "Keypers" ∷ "ConfigIndex" ∷ []) >> (do
        start_batch_index ← decode_uint64 (value_at ev 0)
        threshold ← decode_uint64 (value_at ev 1)
        keypers ← decode_addresses codec (value_at ev 2)
        config_index ← decode_uint64 (value_at ev 3)
        ok (record {
          height = height;
          keypers = keypers;
          start_batch_index = start_batch_index;
          threshold = threshold;
          config_index = config_index;
          config_contract_address = 0;
          started = false;
          validators_updated = false;
        }))
