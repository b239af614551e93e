-- ===== src/EpochKg.antt =====
-- The keys of epochs, from the shares of the keypers (keyper/epochkg/epochkg.go).
pub mod Laws
use shielder.Base.{
  ◌∷◌, ◌++◌, ◌==◌, if◌then◌else◌, ◌>>=◌, ℕ, not, Option, none, some, List, [], map, length, Map,
  get_or_else, has, get, put, delete, Result, ok, err, any, nat_eq,
}
use shielder.Panic.{Panic}
use shielder.Curve.{Curve}
use shielder.Shcrypto.Epochs.{
  KeyError, compute_epoch_id, compute_epoch_secret_key_share, compute_epoch_secret_key,
  verify_epoch_secret_key_share,
}
use shielder.PureDkg.{DkgResult, index}

pub record EpochSecretKeyShare (c : Curve) : Type 0 where
  pub eon : ℕ
  pub epoch : ℕ
  pub sender : ℕ
  pub share : c.G1

pub record EpochKg (c : Curve) : Type 0 where
  pub eon : ℕ
  pub num_keypers : ℕ
  pub threshold : ℕ
  pub keyper : ℕ
  pub secret_key_share : ℕ
  pub public_key : c.G2
  pub public_key_shares : List c.G2
  pub secret_shares : Map ℕ (List (EpochSecretKeyShare c))
  pub secret_keys : Map ℕ (Option c.G1)

pub data ShareError : Type 0 where
  already_have_share cannot_verify : ShareError
  no_key : KeyError → ShareError

module _ {c : Curve} where
  unfoldable pub new_epoch_kg : DkgResult c → EpochKg c
  new_epoch_kg r = record {
    eon = r.eon;
    num_keypers = r.num_keypers;
    threshold = r.threshold;
    keyper = r.keyper;
    secret_key_share = r.secret_key_share;
    public_key = r.public_key;
    public_key_shares = r.public_key_shares;
    secret_shares = [];
    secret_keys = [];
  }

  pub own_epoch_secret_key_share : EpochKg c → ℕ → c.G1
  own_epoch_secret_key_share kg epoch =
      compute_epoch_secret_key_share c (kg.secret_key_share) (compute_epoch_id c epoch)

  -- `computeEpochSecretKey`
  key_of_shares : EpochKg c → List (EpochSecretKeyShare c) → Result KeyError c.G1
  key_of_shares kg shares =
      compute_epoch_secret_key c (map (λ s. s.sender) shares) (map (λ s. s.share) shares)
        (kg.threshold)

  abbrev pub shares_of : EpochKg c → ℕ → List (EpochSecretKeyShare c)
  shares_of kg epoch = get_or_else (get epoch (kg.secret_shares)) []

  -- The epoch's key is recorded as nil when there is an error.
  unfoldable pub add_epoch_secret_key_share :
      EpochKg c → EpochSecretKeyShare c → EpochKg c × Option ShareError
  unfolding key_of_shares
  add_epoch_secret_key_share kg share =
      let shares = shares_of kg share.epoch ++ share ∷ [] in
      let without = delete share.epoch (kg.secret_shares) in
      if any (λ s. s.sender == share.sender) (shares_of kg share.epoch)
      then (kg, some already_have_share)
      else if not (length shares == kg.threshold)
      then (record kg { secret_shares = put share.epoch shares (kg.secret_shares) }, none)
      else (elim (key_of_shares kg shares) [
        | ok key ↦ (
          record kg {
            secret_shares = without;
            secret_keys = put share.epoch (some key) (kg.secret_keys);
          },
          none,
        )
        | err e ↦ (
          record kg {
            secret_shares = without;
            secret_keys = put share.epoch none (kg.secret_keys);
          },
          some (no_key e),
        )
      ])

  unfoldable pub handle_epoch_secret_key_share :
      EpochKg c → EpochSecretKeyShare c → Result Panic (EpochKg c × Option ShareError)
  unfolding add_epoch_secret_key_share
  handle_epoch_secret_key_share kg share =
      if has share.epoch (kg.secret_keys)
      then ok (kg, none)
      else (index (kg.public_key_shares) share.sender >>= λ pk. ok (
          if not (verify_epoch_secret_key_share c share.share pk (compute_epoch_id c share.epoch))
          then (kg, some cannot_verify)
          else add_epoch_secret_key_share kg share))
