-- ===== src/App/Powermap/Order.antt =====
-- The order of the updates: the same for every node, whatever the order of its map.
use shielder.Base.{
  ◌≡◌, ◌∙◌, ◌≢◌, ◌∷◌, ℕ, refl, sym, ap, ap₂, inl, inr, true, false, [], map, arith, Bool-cases, All,
  All-map, All-perm,
}
use mathlib.Core.List.{Permᴰ}
use mathlib.Core.Path.{ap₂, subst}
use shielder.Shmsg.{Bytes}
use shielder.App.Powermap.{
  ValidatorPubkey, pubkey_eq, Powermap, bytes_lt, insert_validator, sort_validators,
  validator_updates,
}

-- Each key of the list comes before those behind it.
abbrev pub Before : Bytes → Powermap → Type 0
Before b pm = All (λ (v : ValidatorPubkey × ℕ). bytes_lt b v.0.ed25519_pubkey ≡ true) pm

abbrev pub Ascending : Powermap → Type 0
Ascending [] = Unit {0}
Ascending (v ∷ rest) = Before v.0.ed25519_pubkey rest × Ascending rest

bytes_lt_trans : (a b c : Bytes) → bytes_lt a b ≡ true → bytes_lt b c ≡ true → bytes_lt a c ≡ true
unfolding bytes_lt
bytes_lt_trans a [] [] h k = cc
bytes_lt_trans [] [] (z ∷ c) h k = refl
bytes_lt_trans (x ∷ a) [] (z ∷ c) h k = cc
bytes_lt_trans a (y ∷ b) [] h k = cc
bytes_lt_trans [] (y ∷ b) (z ∷ c) h k = refl
bytes_lt_trans (x ∷ a) (y ∷ b) (z ∷ c) h k = ground (arith, bytes_lt_trans a b c)

-- Of two keys that differ, one comes before the other.
bytes_lt_total : (a b : Bytes) → bytes_lt a b ≡ false → a ≢ b → bytes_lt b a ≡ true
unfolding bytes_lt
bytes_lt_total [] [] h n = absurd (n refl)
bytes_lt_total [] (y ∷ b) h n = cc
bytes_lt_total (x ∷ a) [] h n = refl
bytes_lt_total (x ∷ a) (y ∷ b) h n =
    ground (arith, n, bytes_lt_total a b, λ (p : x ≡ y) (q : a ≡ b). n (ap₂ (λ z c. z ∷ c) p q))

bytes_lt_asym : (a b : Bytes) → bytes_lt a b ≡ true → bytes_lt b a ≡ false
unfolding bytes_lt
bytes_lt_asym [] [] h = cc
bytes_lt_asym [] (y ∷ b) h = refl
bytes_lt_asym (x ∷ a) [] h = cc
bytes_lt_asym (x ∷ a) (y ∷ b) h = ground (arith, bytes_lt_asym a b)

insert_validator-All :
    (P : ValidatorPubkey × ℕ → Type 0) (v : ValidatorPubkey × ℕ) (pm : Powermap)
    → All P pm
    → P v
    → All P (insert_validator v pm)
unfolding insert_validator
insert_validator-All P v [] h p = (p, tt)
insert_validator-All P v (w ∷ rest) h p =
    elim (Bool-cases (bytes_lt w.0.ed25519_pubkey v.0.ed25519_pubkey)) [
      | inl later ↦ rw later (h.0, insert_validator-All P v rest h.1 p)
      | inr first ↦ rw first (p, h)
    ]

sort_validators-All :
    (P : ValidatorPubkey × ℕ → Type 0) (pm : Powermap) → All P pm → All P (sort_validators pm)
unfolding sort_validators
sort_validators-All P [] h = tt
sort_validators-All P (v ∷ rest) h =
    insert_validator-All P v (sort_validators rest) (sort_validators-All P rest h.1) h.0

Before-mono : (a b : Bytes) (pm : Powermap) → bytes_lt a b ≡ true → Before b pm → Before a pm
Before-mono a b pm h = All-map (λ v k. bytes_lt_trans a b v.0.ed25519_pubkey h k) pm

-- No pair of the map has the key.
abbrev Lacks : ValidatorPubkey → Powermap → Type 0
Lacks k pm = All (λ (w : ValidatorPubkey × ℕ). k.ed25519_pubkey ≢ w.0.ed25519_pubkey) pm

insert_validator-Ascending :
    (v : ValidatorPubkey × ℕ) (pm : Powermap)
    → Lacks v.0 pm
    → Ascending pm
    → Ascending (insert_validator v pm)
unfolding insert_validator
insert_validator-Ascending v [] l h = (tt, tt)
insert_validator-Ascending v (w ∷ rest) l h =
    elim (Bool-cases (bytes_lt w.0.ed25519_pubkey v.0.ed25519_pubkey)) [
      | inl later ↦
          rw later
            (insert_validator-All _ v rest h.0 later, insert_validator-Ascending v rest l.1 h.1)
      | inr first ↦
          let before =
            bytes_lt_total w.0.ed25519_pubkey v.0.ed25519_pubkey first (λ e. l.0 (sym e)) in
          rw first ((before, Before-mono v.0.ed25519_pubkey w.0.ed25519_pubkey rest before h.0), h)
    ]

-- Each key of the map stands once, said pair by pair.
abbrev pub KeysDiffer : Powermap → Type 0
KeysDiffer [] = Unit {0}
KeysDiffer (v ∷ rest) = Lacks v.0 rest × KeysDiffer rest

-- Sorting a powermap in which no two pairs have the same key gives a list whose keys ascend
-- strictly in the order of their bytes.
sort_validators-Ascending : (pm : Powermap) → KeysDiffer pm → Ascending (sort_validators pm)
unfolding sort_validators
sort_validators-Ascending [] h = tt
sort_validators-Ascending (v ∷ rest) h =
    insert_validator-Ascending v (sort_validators rest) (sort_validators-All _ rest h.0)
      (sort_validators-Ascending rest h.1)

insert_comm :
    (v w : ValidatorPubkey × ℕ) (pm : Powermap)
    → v.0.ed25519_pubkey ≢ w.0.ed25519_pubkey
    → insert_validator v (insert_validator w pm) ≡ insert_validator w (insert_validator v pm)
unfolding insert_validator
insert_comm v w [] n = ground (
  arith,
  bytes_lt_total v.0.ed25519_pubkey w.0.ed25519_pubkey,
  bytes_lt_asym v.0.ed25519_pubkey w.0.ed25519_pubkey,
)
insert_comm v w (x ∷ pm) n = ground (
  arith,
  insert_comm v w pm n,
  bytes_lt_total v.0.ed25519_pubkey w.0.ed25519_pubkey,
  bytes_lt_asym v.0.ed25519_pubkey w.0.ed25519_pubkey,
  bytes_lt_trans v.0.ed25519_pubkey x.0.ed25519_pubkey w.0.ed25519_pubkey,
  bytes_lt_trans w.0.ed25519_pubkey x.0.ed25519_pubkey v.0.ed25519_pubkey,
  bytes_lt_trans x.0.ed25519_pubkey v.0.ed25519_pubkey w.0.ed25519_pubkey,
  bytes_lt_trans x.0.ed25519_pubkey w.0.ed25519_pubkey v.0.ed25519_pubkey,
)

KeysDiffer-perm : {xs ys : Powermap} → Permᴰ xs ys → KeysDiffer xs → KeysDiffer ys
KeysDiffer-perm Permᴰ.nil h = tt
KeysDiffer-perm (Permᴰ.cons {l₂ = ys} p d) h = (
  subst (λ (v : ValidatorPubkey × ℕ). Lacks v.0 ys) p ((All-perm _ d).0 h.0),
  KeysDiffer-perm d h.1,
)
KeysDiffer-perm (Permᴰ.swap {l = l} p q) h =
    let key = λ (v : ValidatorPubkey × ℕ). v.0.ed25519_pubkey in
    (
      (
        λ e. h.0.0 (ap key p ∙ sym e ∙ sym (ap key q)),
        subst (λ (v : ValidatorPubkey × ℕ). Lacks v.0 l) q h.1.0,
      ),
      (subst (λ (v : ValidatorPubkey × ℕ). Lacks v.0 l) p h.0.1, h.1.1),
    )
KeysDiffer-perm (Permᴰ.trans d d') h = KeysDiffer-perm d' (KeysDiffer-perm d h)

sort_validators-perm :
    {xs ys : Powermap} → Permᴰ xs ys → KeysDiffer xs → sort_validators xs ≡ sort_validators ys
unfolding sort_validators
sort_validators-perm Permᴰ.nil h = refl
sort_validators-perm (Permᴰ.cons p d) h = ap₂ insert_validator p (sort_validators-perm d h.1)
sort_validators-perm (Permᴰ.swap {a = a} {b = b} {l = l} p q) h =
    insert_comm a b (sort_validators l) h.0.0
    ∙ ap₂ (λ v w. insert_validator v (insert_validator w (sort_validators l))) q p
sort_validators-perm (Permᴰ.trans d d') h =
    sort_validators-perm d h ∙ sort_validators-perm d' (KeysDiffer-perm d h)

-- Two powermaps with the same pairs in whatever order, no two of which have the same key, give the
-- same list of updates.
pub validator_updates-perm :
    (xs ys : Powermap) → Permᴰ xs ys → KeysDiffer xs → validator_updates xs ≡ validator_updates ys
unfolding validator_updates
validator_updates-perm xs ys d h = ap (map _) (sort_validators-perm d h)
