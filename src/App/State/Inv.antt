-- ===== src/App/State/Inv.antt =====
-- The invariant of the application: what keeps its lookups from panicking.
use mathlib.Core.Path.{subst}
use shielder.Base.{
  ◌≤◌, ◌<◌, ◌≡◌, ◌∷◌, ℕ, refl, inl, inr, Bool, true, false, none, some, List, [], arith, leb,
  Bool-cases, Option-cases, All, get, ok, nat_eq,
}
use shielder.Config.{BatchConfig}
use shielder.App.Voting.{EonStartVoting}
use shielder.App.Voting.Winner.{IsConfigVotingValid, IsEonStartVotingValid, new_config_voting-Valid}
use shielder.App.Dkg.{DkgInstance}
use shielder.App.State.{
  BatchState, get_batch_state, App, find_last, get_config, last_config, new_shielder_app,
}

-- The first config covers every batch.
abbrev pub HasGuard : List BatchConfig → Type 0
HasGuard [] = ⊥
HasGuard (c ∷ rest) = c.start_batch_index ≡ 0

-- From one config to the next the batch index does not fall, and the config index grows.
abbrev pub IsOrdered : List BatchConfig → Type 0
IsOrdered [] = Unit
IsOrdered (c ∷ rest) =
    All
      (λ (d : BatchConfig).
        (c.start_batch_index ≤ d.start_batch_index) × (c.config_index < d.config_index))
      rest
    × IsOrdered rest

-- Each key generation stands under its own eon.
abbrev pub IsFiled : ℕ × DkgInstance → Type 0
IsFiled (eon, dkg) = dkg.eon ≡ eon

pub record IsValid (app : App) : Type 0 where
  pub guard : HasGuard app.configs
  pub ordered : IsOrdered app.configs
  pub voting : IsConfigVotingValid app.config_voting
  pub eon_votings :
      All (λ (p : ℕ × EonStartVoting). IsEonStartVotingValid p.1) app.eon_start_votings
  pub filed : All IsFiled app.dkg_map

pub new_shielder_app-IsValid : IsValid new_shielder_app
unfolding new_shielder_app
new_shielder_app-IsValid = record {
  guard = refl;
  ordered = (tt, tt);
  voting = new_config_voting-Valid;
  eon_votings = tt;
  filed = tt;
}

module _ {ℓ κ} {A : Type ℓ} where
  -- The element found passes the test and is one of the list's.
  pub find_last-some :
      (P : A → Type κ) (p : A → Bool) (xs : List A) (a : A)
      → find_last p xs ≡ some a
      → All P xs
      → P a × (p a ≡ true)
  unfolding find_last
  find_last-some P p [] a h all_p = cc
  find_last-some P p (x ∷ xs) a h all_p = elim (Option-cases (find_last p xs)) [
    | inr (b, e) ↦
        let same : b ≡ a = ground (arith, e, h) in find_last-some P p xs a (rw (← same) e) all_p.1
    | inl e ↦ elim (Bool-cases (p x)) [
      | inl hit ↦
          let same : x ≡ a = ground (arith, e, h, hit) in
          subst (λ z. P z × (p z ≡ true)) same (all_p.0, hit)
      | inr miss ↦ absurd (ground (arith, e, h, miss))
    ]
  ]

module _ {ℓ} {A : Type ℓ} where
  pub find_last-none :
      (p : A → Bool) (xs : List A) → find_last p xs ≡ none → All (λ (a : A). p a ≡ false) xs
  unfolding find_last
  find_last-none p [] h = tt
  find_last-none p (x ∷ xs) h = elim (Option-cases (find_last p xs)) [
    | inr (b, e) ↦ absurd (ground (arith, e, h))
    | inl e ↦ (ground (arith, e, h), find_last-none p xs e)
  ]

pub last_config_total :
    (cs : List BatchConfig) → HasGuard cs → (c : BatchConfig) × (last_config cs ≡ ok c)
unfolding last_config
last_config_total [] h = absurd h
last_config_total (c ∷ cs) h = elim (Option-cases (find_last (λ _. true) (c ∷ cs))) [
  | inl e ↦ absurd (ground (arith, (find_last-none (λ _. true) (c ∷ cs) e).0))
  | inr (d, e) ↦ (d, ground (arith, e))
]

pub get_config_total :
    (cs : List BatchConfig) (b : ℕ) → HasGuard cs → (c : BatchConfig) × (get_config cs b ≡ ok c)
unfolding get_config
get_config_total [] b h = absurd h
get_config_total (c ∷ cs) b h =
    elim (Option-cases (find_last (λ (d : BatchConfig). leb d.start_batch_index b) (c ∷ cs))) [
      | inl e ↦ absurd (ground (arith, h, (find_last-none _ (c ∷ cs) e).0))
      | inr (d, e) ↦ (d, ground (arith, e))
    ]

pub get_batch_state_total :
    (app : App) (b : ℕ) → HasGuard app.configs → (s : BatchState) × (get_batch_state app b ≡ ok s)
unfolding get_batch_state
get_batch_state_total app b h = elim (Option-cases (get b app.batch_states)) [
  | inr (s, p) ↦ (s, rw (p, get_batch_state) refl)
  | inl p ↦
      let (c, q) = get_config_total app.configs b h in
      (
        record { batch_index = b; config = c; decryption_signatures = [] },
        rw (p, get_batch_state) (rw q refl),
      )
]
