-- ===== src/App/Powermap.antt =====
-- Validators and their voting power (app/powermap.go, and the keys of app/types.go).
pub mod Diff
pub mod Order
pub mod Sent
use shielder.Base.{
  ◌≡◌, ◌↔◌, ◌&&◌, ◌||◌, ◌∷◌, ◌==◌, if◌then◌else◌, ℕ, Bool, true, false, Option, none, some, List,
  [], map, arith, ltb, Eq, list_beq_iff, length, Map, get_or_else, has, get, put, add64, nat_eq,
  list_eq,
}
use shielder.Shmsg.{Bytes}

-- The raw bytes of an ed25519 key.
pub record ValidatorPubkey : Type 0 where
  pub ed25519_pubkey : Bytes

pub pubkey_beq_iff :
    (a b : ValidatorPubkey) → ((a.ed25519_pubkey == b.ed25519_pubkey) ≡ true) ↔ (a ≡ b)
pubkey_beq_iff a b = ground (arith, list_beq_iff a.ed25519_pubkey b.ed25519_pubkey)

instance abbrev pub pubkey_eq : Eq ValidatorPubkey
pubkey_eq = record { beq = λ a b. a.ed25519_pubkey == b.ed25519_pubkey; beq_iff = pubkey_beq_iff }

-- The power is an `int64`.
abbrev pub Powermap : Type 0
Powermap = Map ValidatorPubkey ℕ

-- `ed25519.PublicKeySize`
abbrev pub public_key_size : ℕ
public_key_size = 32

unfoldable pub new_validator_pubkey : Bytes → Option ValidatorPubkey
new_validator_pubkey pubkey =
    if length pubkey == public_key_size then some (record { ed25519_pubkey = pubkey }) else none

-- A key of another kind than ed25519 is `none`.
pub record ValidatorUpdate : Type 0 where
  pub pub_key : Option Bytes
  pub power : ℕ

-- `m[k] += p`
unfoldable pub add_power : ValidatorPubkey → ℕ → Powermap → Powermap
add_power k p pm = put k (add64 (get_or_else (get k pm) 0) p) pm

make_powermap_from : Powermap → List ValidatorUpdate → Option Powermap
unfolding new_validator_pubkey add_power
make_powermap_from res [] = some res
make_powermap_from res (v ∷ rest) = elim v.pub_key [
  | none ↦ none
  | some key ↦ elim (new_validator_pubkey key) [
    | none ↦ none
    | some pk ↦ make_powermap_from (add_power pk v.power res) rest
  ]
]

-- `none` is one of the two errors, about a key of another kind or of another length.
unfoldable pub make_powermap : List ValidatorUpdate → Option Powermap
unfolding make_powermap_from
make_powermap validators = make_powermap_from [] validators

-- The first loop of `DiffPowermaps`: the keys that are gone get power 0.
remove_old : Powermap → Powermap → Powermap → Powermap
remove_old newpm [] res = res
remove_old newpm ((v, _) ∷ rest) res =
    remove_old newpm rest (if has v newpm then res else put v 0 res)

-- The second loop: the keys whose power is another. A missing power reads as 0.
update_new : Powermap → Powermap → Powermap → Powermap
update_new oldpm [] res = res
update_new oldpm ((v, p) ∷ rest) res =
    update_new oldpm rest (if get_or_else (get v oldpm) 0 == p then res else put v p res)

unfoldable pub diff_powermaps : Powermap → Powermap → Powermap
unfolding remove_old update_new
diff_powermaps oldpm newpm = update_new oldpm newpm (remove_old newpm oldpm [])

-- `bytes.Compare(a, b) < 0`
pub bytes_lt : Bytes → Bytes → Bool
bytes_lt [] [] = false
bytes_lt [] (b ∷ bs) = true
bytes_lt (a ∷ as') [] = false
bytes_lt (a ∷ as') (b ∷ bs) = ltb a b || a == b && bytes_lt as' bs

-- `SortValidators`, by insertion; Go's `sort.Slice` gives the same list where no key stands twice.
insert_validator : ValidatorPubkey × ℕ → Powermap → Powermap
insert_validator v [] = v ∷ []
insert_validator v (w ∷ rest) =
    let later = insert_validator v rest in
    if bytes_lt w.0.ed25519_pubkey v.0.ed25519_pubkey then w ∷ later else v ∷ w ∷ rest

pub sort_validators : Powermap → Powermap
unfolding insert_validator bytes_lt
sort_validators [] = []
sort_validators (v ∷ rest) = insert_validator v (sort_validators rest)

-- `ValidatorUpdates`: each pair of the map as an update, in the order of the keys.
unfoldable pub validator_updates : Powermap → List ValidatorUpdate
unfolding sort_validators
validator_updates pm =
    map (λ v. record { pub_key = some (v.0.ed25519_pubkey); power = v.1 }) (sort_validators pm)
