-- ===== src/App/Powermap/Sent.antt =====
-- What tendermint finds in the list of updates it is handed.
use shielder.Base.{
  ◌≡◌, ◌∙◌, ◌∷◌, ◌==◌, if◌then◌else◌, ℕ, refl, ap, inl, inr, true, false, Option, none, some, List,
  [], map, arith, Bool-cases, list_beq_iff, get, nat_eq, list_eq,
}
use shielder.Shmsg.{Bytes}
use shielder.App.Powermap.{
  ValidatorPubkey, pubkey_eq, Powermap, ValidatorUpdate, bytes_lt, insert_validator,
  sort_validators, validator_updates,
}

-- The power that the first update of a key sends.
abbrev pub sent : ValidatorPubkey → List ValidatorUpdate → Option ℕ
sent k [] = none
sent k (u ∷ rest) =
    let others = sent k rest in
    elim u.pub_key [
      | none ↦ others
      | some b ↦ if b == k.ed25519_pubkey then some u.power else others
    ]

bytes_lt_irrefl : (a : Bytes) → bytes_lt a a ≡ false
unfolding bytes_lt
bytes_lt_irrefl [] = refl
bytes_lt_irrefl (b ∷ bs) = ground (arith, bytes_lt_irrefl bs)

bytes_lt_differs : (a b : Bytes) → bytes_lt a b ≡ true → (a == b) ≡ false
bytes_lt_differs a b h = elim (Bool-cases (a == b)) [
  | inl same ↦
      let e : a ≡ b = (list_beq_iff a b).0 same in
      absurd (ground (arith, ap (λ c. bytes_lt a c) e, bytes_lt_irrefl a, h))
  | inr other ↦ other
]

get-insert :
    (k : ValidatorPubkey) (v : ValidatorPubkey × ℕ) (pm : Powermap)
    → get k (insert_validator v pm) ≡ get k (v ∷ pm)
unfolding insert_validator get
get-insert k v [] = refl
get-insert k v (w ∷ rest) = ground (
  arith,
  get-insert k v rest,
  bytes_lt_differs w.0.ed25519_pubkey v.0.ed25519_pubkey,
  list_beq_iff w.0.ed25519_pubkey k.ed25519_pubkey,
  list_beq_iff v.0.ed25519_pubkey k.ed25519_pubkey,
  list_beq_iff w.0.ed25519_pubkey v.0.ed25519_pubkey,
)

get-sort : (k : ValidatorPubkey) (pm : Powermap) → get k (sort_validators pm) ≡ get k pm
unfolding sort_validators get
get-sort k [] = refl
get-sort k (v ∷ rest) = ground (arith, get-insert k v (sort_validators rest), get-sort k rest)

sent-map :
    (k : ValidatorPubkey) (pm : Powermap)
    → sent k (map (λ v. record { pub_key = some (v.0.ed25519_pubkey); power = v.1 }) pm) ≡ get k pm
unfolding get
sent-map k [] = refl
sent-map k (v ∷ rest) = ground (arith, sent-map k rest)

-- The updates send, for each key, what the map has under it.
pub sent-validator_updates :
    (k : ValidatorPubkey) (pm : Powermap) → sent k (validator_updates pm) ≡ get k pm
unfolding validator_updates
sent-validator_updates k pm = sent-map k (sort_validators pm) ∙ get-sort k pm
