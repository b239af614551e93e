-- ===== src/App/Powermap/Diff.antt =====
-- The updates handed to tendermint turn the old validators into the new ones.
use shielder.Base.{
  ◌≡◌, ◌≢◌, ◌⊎◌, ◌&&◌, ◌∷◌, ◌==◌, if◌then◌else◌, ℕ, refl, ap, true, false, not, Option, none, some,
  [], arith, contains, get_or_else, has, keys, HasKeysOnce, get-put, get, put, nat_eq,
}
use shielder.App.Powermap.{
  ValidatorPubkey, pubkey_eq, pubkey_beq_iff, Powermap, remove_old, update_new, diff_powermaps,
}

-- The power of a key, 0 where it is missing.
abbrev pub power_of : ValidatorPubkey → Powermap → ℕ
power_of k pm = get_or_else (get k pm) 0

remove_old_lem :
    (newpm oldpm res : Powermap) (k : ValidatorPubkey)
    → get k (remove_old newpm oldpm res)
      ≡ (if has k oldpm && not (has k newpm) then some 0 else get k res)
unfolding remove_old get
remove_old_lem newpm [] res k = refl
remove_old_lem newpm ((v, p) ∷ rest) res k = ground (
  arith,
  remove_old_lem newpm rest (if has v newpm then res else put v 0 res) k,
  get-put v k 0 res,
  pubkey_beq_iff v k,
  λ (q : v ≡ k). ap (λ (j : ValidatorPubkey). get j newpm) q,
)

-- What the second loop leaves at a key, by what the new map has there.
abbrev updated : ℕ → Option ℕ → Option ℕ → Option ℕ
updated old none before = before
updated old (some p) before = if old == p then before else some p

contains-get : (k : ValidatorPubkey) (m : Powermap) → contains (keys m) k ≡ has k m
unfolding get
contains-get k [] = refl
contains-get k ((v, p) ∷ m) = ground (arith, contains-get k m)

update_new_lem :
    (oldpm newpm res : Powermap) (k : ValidatorPubkey)
    → HasKeysOnce newpm
    → get k (update_new oldpm newpm res) ≡ updated (power_of k oldpm) (get k newpm) (get k res)
unfolding update_new get
update_new_lem oldpm [] res k h = refl
update_new_lem oldpm ((v, p) ∷ rest) res k h = ground (
  arith,
  update_new_lem oldpm rest (if power_of v oldpm == p then res else put v p res) k,
  get-put v k p res,
  pubkey_beq_iff v k,
  contains-get v rest,
  λ (q : v ≡ k). ap (λ (j : ValidatorPubkey). get j oldpm) q,
  λ (q : v ≡ k). ap (λ (j : ValidatorPubkey). get j rest) q,
)

-- For new powers with each key once, the diff applied to the old powers gives the new ones: each
-- key's new power is what the diff has for it, or, where it has nothing, its old power.
pub diff_powermaps_lem :
    (oldpm newpm : Powermap) (k : ValidatorPubkey)
    → HasKeysOnce newpm
    → power_of k newpm
      ≡ (elim (get k (diff_powermaps oldpm newpm)) [ some p ↦ p | none ↦ power_of k oldpm ])
unfolding diff_powermaps get
diff_powermaps_lem oldpm newpm k h = ground (
  arith,
  update_new_lem oldpm newpm (remove_old newpm oldpm []) k,
  remove_old_lem newpm oldpm [] k,
)

-- For new powers with each key once, a key that stands in the diff has there a power other than
-- its old one, or is a validator that is gone from the new powers and stands there with power 0.
diff_powermaps-minimal :
    (oldpm newpm : Powermap) (k : ValidatorPubkey) (p : ℕ)
    → HasKeysOnce newpm
    → get k (diff_powermaps oldpm newpm) ≡ some p
    → (p ≢ power_of k oldpm) ⊎ ((has k oldpm ≡ true) × (has k newpm ≡ false) × (p ≡ 0))
unfolding diff_powermaps get
diff_powermaps-minimal oldpm newpm k p h e = ground (
  arith,
  update_new_lem oldpm newpm (remove_old newpm oldpm []) k h,
  remove_old_lem newpm oldpm [] k,
)
