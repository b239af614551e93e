-- ===== src/Tests/Epochs.antt =====
-- Keys of epochs, of the key generation in Keys.
use shielder.Base.{◌≡◌, ◌∷◌, ℕ, zero, suc, refl, none, some, [], arith, keys, get, put, ok, nat_eq}
use shielder.EpochKg.{
  EpochSecretKeyShare, EpochKg, new_epoch_kg, add_epoch_secret_key_share,
  handle_epoch_secret_key_share,
}
use shielder.EpochKg.Laws.{IsValid, handle_epoch_secret_key_share-IsValid, threshold_gives_key}
use shielder.Tests.Fixtures.{seven}
use shielder.Tests.Keys.{done_result}

-- The share of a keyper is its public key share, times the epoch's point 5.
abbrev point_of : ℕ → ℕ
point_of zero = 1
point_of (suc n) = 0

abbrev test_share : ℕ → EpochSecretKeyShare seven
test_share sender = record { eon = 1; epoch = 4; sender = sender; share = point_of sender }

abbrev empty_kg : EpochKg seven
empty_kg = new_epoch_kg done_result

abbrev one_share_kg : EpochKg seven
one_share_kg = record empty_kg { secret_shares = (4, test_share 0 ∷ []) ∷ [] }

empty_kg-IsValid : IsValid empty_kg
unfolding new_epoch_kg
empty_kg-IsValid = record { positive = omega arith; collecting = tt; keys = tt }

first_share : handle_epoch_secret_key_share empty_kg (test_share 0) ≡ ok (one_share_kg, none)
unfolding handle_epoch_secret_key_share get new_epoch_kg
    shielder.Shcrypto.Epochs.verify_epoch_secret_key_share shielder.Shcrypto.Epochs.compute_epoch_id
    shielder.Base.put
first_share = refl

one_share_kg-IsValid : IsValid one_share_kg
one_share_kg-IsValid =
    handle_epoch_secret_key_share-IsValid empty_kg one_share_kg (test_share 0) none empty_kg-IsValid
      first_share

abbrev key_kg : EpochKg seven
key_kg = (add_epoch_secret_key_share one_share_kg (test_share 1)).0

second_share : handle_epoch_secret_key_share one_share_kg (test_share 1) ≡ ok (key_kg, none)
unfolding handle_epoch_secret_key_share get new_epoch_kg
    shielder.Shcrypto.Epochs.verify_epoch_secret_key_share shielder.Shcrypto.Epochs.compute_epoch_id
    shielder.Shcrypto.Epochs.compute_epoch_secret_key
second_share = refl

handle_epoch_secret_key_share-IsValid_example : IsValid key_kg
handle_epoch_secret_key_share-IsValid_example =
    handle_epoch_secret_key_share-IsValid one_share_kg key_kg (test_share 1) none
      one_share_kg-IsValid second_share

threshold_gives_key_example :
    let (kg', e) = add_epoch_secret_key_share one_share_kg (test_share 1) in
    (key : ℕ) × (get 4 (kg'.secret_keys) ≡ some (some key)) × (e ≡ none)
unfolding get new_epoch_kg
threshold_gives_key_example =
    threshold_gives_key one_share_kg (test_share 1) one_share_kg-IsValid refl refl

abbrev late_kg : EpochKg seven
late_kg = record empty_kg { secret_keys = (4, some 2) ∷ [] }

late_share : handle_epoch_secret_key_share late_kg (test_share 1) ≡ ok (late_kg, none)
unfolding handle_epoch_secret_key_share get
late_share = refl

late_key : get 4 (late_kg.secret_keys) ≡ some (some 2)
unfolding get
late_key = refl
