-- ===== src/EpochKg/Laws.antt =====
-- Which shares are kept, and when the key of an epoch is there.
use shielder.Base.{
  ◌+◌, ◌<◌, ◌≡◌, ◌∙◌, ◌||◌, ◌∷◌, ◌++◌, ◌==◌, ℕ, refl, sym, ap, inl, inr, true, false, Option, none,
  some, List, [], map, arith, Bool-cases, Option-cases, =ℕ_iff, length, length-append, All,
  contains, distinct, is_some, has, get-put, get-put_self, get, ok, any, All-get, All-put,
  All-delete, Result-cases, nat_eq,
}
use mathlib.Core.Path.{subst}
use shielder.Curve.{Curve}
use shielder.Shcrypto.Epochs.{
  compute_epoch_id, compute_epoch_secret_key, verify_epoch_secret_key_share,
}
use shielder.PureDkg.{index}
use shielder.EpochKg.{
  EpochSecretKeyShare, EpochKg, ShareError, key_of_shares, shares_of, add_epoch_secret_key_share,
  handle_epoch_secret_key_share,
}

-- A key, not nil.
abbrev pub IsKey {ℓ} : {A : Type ℓ} → ℕ × Option A → Type 0
IsKey (_, key) = is_some key ≡ true

module _ {c : Curve} where
  abbrev pub senders : List (EpochSecretKeyShare c) → List ℕ
  senders shares = map (λ s. s.sender) shares

  -- Shares of different senders, and fewer than the threshold.
  abbrev pub IsCollecting : ℕ → ℕ × List (EpochSecretKeyShare c) → Type 0
  IsCollecting threshold (_, shares) =
      (distinct (senders shares) ≡ true) × (length shares < threshold)

  pub record IsValid (kg : EpochKg c) : Type 0 where
    pub positive : 0 < kg.threshold
    pub collecting : All (IsCollecting (kg.threshold)) (kg.secret_shares)
    pub keys : All IsKey (kg.secret_keys)

  any-contains :
      (shares : List (EpochSecretKeyShare c)) (a : ℕ)
      → any (λ s. s.sender == a) shares ≡ contains (senders shares) a
  any-contains [] a = refl
  any-contains (s ∷ rest) a = ground (arith, any-contains rest a)

  length-senders : (shares : List (EpochSecretKeyShare c)) → length (senders shares) ≡ length shares
  length-senders [] = refl
  length-senders (s ∷ rest) = omega (arith, length-senders rest)

  length-points :
      (shares : List (EpochSecretKeyShare c)) → length (map (λ s. s.share) shares) ≡ length shares
  length-points [] = refl
  length-points (s ∷ rest) = omega (arith, length-points rest)

  distinct-senders_add :
      (shares : List (EpochSecretKeyShare c)) (s : EpochSecretKeyShare c)
      → distinct (senders shares) ≡ true
      → contains (senders shares) s.sender ≡ false
      → distinct (senders (shares ++ s ∷ [])) ≡ true
  distinct-senders_add [] s d h = refl
  distinct-senders_add (t ∷ rest) s d h =
      ground (arith, d, h, distinct-senders_add rest s, contains_add rest t.sender)
    where
      contains_add :
          (xs : List (EpochSecretKeyShare c)) (a : ℕ)
          → contains (senders (xs ++ s ∷ [])) a ≡ (contains (senders xs) a || s.sender == a)
      contains_add [] a = ground arith
      contains_add (x ∷ xs) a = ground (arith, contains_add xs a)

  -- As many shares as the threshold give a key.
  key_of_shares_total :
      (kg : EpochKg c) (shares : List (EpochSecretKeyShare c))
      → length shares ≡ kg.threshold
      → (key : c.G1) × (key_of_shares kg shares ≡ ok key)
  unfolding key_of_shares compute_epoch_secret_key
  key_of_shares_total kg shares h = elim (Result-cases (key_of_shares kg shares)) [
    | inl (key, p) ↦ (key, p)
    | inr (e, p) ↦ absurd (ground (arith, p, h, length-senders shares, length-points shares))
  ]

  shares_of-IsCollecting :
      (kg : EpochKg c) (epoch : ℕ)
      → IsValid kg
      → IsCollecting (kg.threshold) (epoch, shares_of kg epoch)
  shares_of-IsCollecting kg epoch v = elim (Option-cases (get epoch (kg.secret_shares))) [
    | inl p ↦ rw p (refl, v.positive)
    | inr (shares, p) ↦
        rw p
          (All-get (IsCollecting (kg.threshold)) (kg.secret_shares) epoch shares (v.collecting) p)
  ]

  add_epoch_secret_key_share-IsValid :
      (kg : EpochKg c) (share : EpochSecretKeyShare c)
      → IsValid kg
      → IsValid (add_epoch_secret_key_share kg share).0
  unfolding add_epoch_secret_key_share
  add_epoch_secret_key_share-IsValid kg share v =
      elim (Bool-cases (any (λ s. s.sender == share.sender) (shares_of kg share.epoch))) [
        | inl old ↦ rw (old, add_epoch_secret_key_share) v
        | inr new ↦
            rw (new, add_epoch_secret_key_share)
              (elim (Bool-cases (length (shares_of kg share.epoch ++ share ∷ []) == kg.threshold)) [
                | inr fewer ↦ rw fewer (record {
                  positive = v.positive;
                  collecting =
                      All-put (IsCollecting (kg.threshold)) share.epoch _ (kg.secret_shares)
                        (v.collecting) (one_more new fewer);
                  keys = v.keys;
                })
                | inl enough ↦
                    let (key, q) =
                      key_of_shares_total kg (shares_of kg share.epoch ++ share ∷ [])
                        (ground (arith, enough)) in
                    rw enough (
                      rw q (record {
                        positive = v.positive;
                        collecting =
                            All-delete (IsCollecting (kg.threshold)) share.epoch (kg.secret_shares)
                              (v.collecting);
                        keys = All-put IsKey share.epoch (some key) (kg.secret_keys) (v.keys) refl;
                      }))
              ])
      ]
    where
      one_more :
          any (λ s. s.sender == share.sender) (shares_of kg share.epoch) ≡ false
          → (length (shares_of kg share.epoch ++ share ∷ []) == kg.threshold) ≡ false
          → IsCollecting (kg.threshold) (share.epoch, shares_of kg share.epoch ++ share ∷ [])
      one_more new fewer =
          let (d, l) = shares_of-IsCollecting kg share.epoch v in
          (
            distinct-senders_add (shares_of kg share.epoch) share d
                (sym (any-contains (shares_of kg share.epoch) share.sender) ∙ new),
            ground (arith, l, fewer, length-append (shares_of kg share.epoch) (share ∷ [])),
          )

  -- When a share is handled without a panic in a state with a positive threshold, in which the
  -- shares kept for an epoch are of different senders and fewer than the threshold, and no
  -- recorded key is nil, the new state is such a state too.
  pub handle_epoch_secret_key_share-IsValid :
      (kg kg' : EpochKg c) (share : EpochSecretKeyShare c) (e : Option ShareError)
      → IsValid kg
      → handle_epoch_secret_key_share kg share ≡ ok (kg', e)
      → IsValid kg'
  unfolding handle_epoch_secret_key_share
  handle_epoch_secret_key_share-IsValid kg kg' share e v h =
      elim (Bool-cases (has share.epoch (kg.secret_keys))) [
        | inl done ↦ subst IsValid (ground (arith, done, h)) v
        | inr waits ↦ elim (Result-cases (index (kg.public_key_shares) share.sender)) [
          | inr (_, p) ↦ absurd (ground (arith, waits, p, h))
          | inl (pk, p) ↦
              elim (Bool-cases
                (verify_epoch_secret_key_share c share.share pk (compute_epoch_id c share.epoch))) [
                  | inr bad ↦ subst IsValid (ground (arith, waits, p, bad, h)) v
                  | inl good ↦
                      let same : add_epoch_secret_key_share kg share ≡ (kg', e) =
                        ground (arith, waits, p, good, h) in
                      subst IsValid (ap (λ r. r.0) same)
                        (add_epoch_secret_key_share-IsValid kg share v)
                ]
        ]
      ]

  -- In such a state, adding a share of a new sender that brings the shares of its epoch to the
  -- threshold records a key for the epoch, without an error.
  pub threshold_gives_key :
      (kg : EpochKg c) (share : EpochSecretKeyShare c)
      → IsValid kg
      → contains (senders (shares_of kg share.epoch)) share.sender ≡ false
      → length (shares_of kg share.epoch) + 1 ≡ kg.threshold
      → let (kg', e) = add_epoch_secret_key_share kg share in
        (key : c.G1) × (get share.epoch (kg'.secret_keys) ≡ some (some key)) × (e ≡ none)
  unfolding add_epoch_secret_key_share
  threshold_gives_key kg share v new enough =
      let shares = shares_of kg share.epoch ++ share ∷ [] in
      let first : any (λ s. s.sender == share.sender) (shares_of kg share.epoch) ≡ false =
        any-contains (shares_of kg share.epoch) share.sender ∙ new in
      let len : length shares ≡ kg.threshold =
        length-append (shares_of kg share.epoch) (share ∷ []) ∙ enough in
      let hit : (length shares == kg.threshold) ≡ true =
        (=ℕ_iff (length shares) (kg.threshold)).1 len in
      let (key, q) = key_of_shares_total kg shares len in
      rw (first, add_epoch_secret_key_share)
        (rw hit (rw q (key, get-put_self share.epoch (some key) (kg.secret_keys), refl)))

  -- What is recorded as the key of an epoch stays so when any share is handled without a panic.
  key_stays :
      (kg kg' : EpochKg c) (share : EpochSecretKeyShare c) (e : Option ShareError) (epoch : ℕ)
      (key : Option c.G1)
      → get epoch (kg.secret_keys) ≡ some key
      → handle_epoch_secret_key_share kg share ≡ ok (kg', e)
      → get epoch (kg'.secret_keys) ≡ some key
  unfolding handle_epoch_secret_key_share add_epoch_secret_key_share
  key_stays kg kg' share e epoch key h p = elim (Bool-cases (share.epoch == epoch)) [
    | inl same ↦
        let e1 : share.epoch ≡ epoch = (=ℕ_iff share.epoch epoch).0 same in
        let known : has share.epoch (kg.secret_keys) ≡ true = rw e1 (ground (arith, h)) in
        ground (arith, p, known, h)
    | inr other ↦ elim (Result-cases (key_of_shares kg (shares_of kg share.epoch ++ share ∷ []))) [
      | inl (k, q) ↦
          ground (arith, p, h, other, q, get-put share.epoch epoch (some k) (kg.secret_keys))
      | inr (_, q) ↦ ground (arith, p, h, other, q, get-put share.epoch epoch none (kg.secret_keys))
    ]
  ]
