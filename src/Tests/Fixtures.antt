-- ===== src/Tests/Fixtures.antt =====
-- A small chain: three keypers, of whom two decide, and libraries that are simple functions.
use shielder.Base.{
  ◌+◌, ◌-◌, ◌*◌, ◌%◌, ◌≡◌, ◌∷◌, ◌==◌, if◌then◌else◌, ℕ, refl, true, Option, none, some, List, [],
  replicate, get, put, ok, nat_eq,
}
use mathlib.Core.List.Permᴰ
use shielder.Shmsg.{Bytes, Address, MessageWithNonce}
use shielder.Shmsg.Message.{check_in, batch_config_started}
use shielder.Curve.{Curve}
use shielder.External.{External}
use shielder.App.Voting.Tally.{IterationLaw}
use shielder.App.Voting.Winner.{new_config_voting-Valid}
use shielder.App.State.{App, new_shielder_app, update_check_tx_members}
use shielder.App.State.Inv.{IsValid}
use shielder.App.Deliver.Post.{IsValid-same}
use shielder.App.Blocks.{RequestInitChain, genesis_config, init_chain}

abbrev pub big_endian : ℕ → Bytes → ℕ
big_endian n [] = n
big_endian n (b ∷ rest) = big_endian (256 * n + b) rest

abbrev pub test_key : Bytes
test_key = replicate 32 3

-- A first byte 0 is a check-in, any other a vote that the config of that index has started.
abbrev pub test_message : Bytes → Option MessageWithNonce
test_message [] = none
test_message (b ∷ rest) = some (record {
  msg =
      if b == 0
      then check_in (record { validator_public_key = test_key; encryption_public_key = 8 ∷ [] })
      else batch_config_started b;
  chain_id = 9 ∷ [];
  random_nonce = 5;
})

abbrev pub first_address : Bytes → Option Address
first_address [] = none
first_address (b ∷ rest) = some (b + 1)

-- The pairing of two numbers is their product.
abbrev pairing_sum : List ℕ → List ℕ → ℕ
pairing_sum [] qs = 0
pairing_sum (p ∷ ps) [] = 0
pairing_sum (p ∷ ps) (q ∷ qs) = p * q + pairing_sum ps qs

abbrev pub seven : Curve
seven = record {
  G2 = ℕ;
  order = 7;
  scalar_base_mult = λ n. n % 7;
  scalar_mult = λ p n. p * n % 7;
  add_g2 = λ p q. (p + q) % 7;
  marshal_g2 = λ p. p ∷ [];
  G1 = ℕ;
  scalar_base_mult_g1 = λ n. n % 7;
  scalar_mult_g1 = λ p n. p * n % 7;
  add_g1 = λ p q. (p + q) % 7;
  neg_g1 = λ p. (7 - p) % 7;
  pairing_check = λ ps qs. pairing_sum ps qs % 7 == 0;
  GT = ℕ;
  pair = λ p q. p * q % 7;
  scalar_mult_gt = λ g n. g * n % 7;
  marshal_gt = λ g. g ∷ [];
}

abbrev pub test_libraries : External
test_libraries = record {
  curve = seven;
  PublicKey = Bytes;
  bytes_to_address = big_endian 0;
  unmarshal_g1 = λ bs. some (big_endian 0 bs);
  unmarshal_g2 = λ bs. some (big_endian 0 bs);
  decompress_pubkey = λ bs. some bs;
  sha3_256 = λ bs. bs;
  recover_address = λ hash signature. first_address signature;
  unmarshal_message = test_message;
  unmarshal_genesis = λ bs. some (record { keypers = 1 ∷ 2 ∷ 3 ∷ []; threshold = 2 });
  iteration = λ m. m;
}

pub test_iteration : IterationLaw test_libraries
test_iteration m = Permᴰ.refl m

-- 66 bytes of zeros: the signature of keyper 1 and a check-in.
abbrev pub check_in_tx : Bytes
check_in_tx = replicate 88 b'A'

abbrev pub test_request : RequestInitChain
test_request = record {
  chain_id = 9 ∷ [];
  validators = record { pub_key = some (replicate 32 7); power = 10 } ∷ [];
  app_state_bytes = [];
}

abbrev pub genesis_app : App
genesis_app =
    record (update_check_tx_members (record new_shielder_app {
      configs = genesis_config (1 ∷ 2 ∷ 3 ∷ []) 2 ∷ [];
      validators = (record { ed25519_pubkey = replicate 32 7 }, 10) ∷ [];
    })) { chain_id = 9 ∷ [] }

abbrev pub checked_in_app : App
checked_in_app = record genesis_app {
  identities = (1, record { ed25519_pubkey = test_key }) ∷ [];
  nonce_tracker = record { random_nonces = (1, (5, true) ∷ []) ∷ [] };
}

pub genesis_begins : init_chain test_libraries new_shielder_app test_request ≡ ok genesis_app
unfolding init_chain shielder.Config.ensure_valid new_shielder_app
    shielder.App.Powermap.make_powermap shielder.Base.put shielder.Base.get
genesis_begins = refl

pub genesis_app-IsValid : IsValid genesis_app
unfolding new_shielder_app update_check_tx_members
genesis_app-IsValid = record {
  guard = refl;
  ordered = (tt, tt);
  voting = new_config_voting-Valid;
  eon_votings = tt;
  filed = tt;
}

pub checked_in_app-IsValid : IsValid checked_in_app
checked_in_app-IsValid = IsValid-same genesis_app-IsValid (refl, refl, refl, refl)
