-- ===== src/App/State/Extend.antt =====
-- Adding a config and starting a key generation keep the invariant.
use mathlib.Core.Path.{subst}
use shielder.Base.{
  ◌≤◌, ◌<◌, ◌≡◌, ◌∙◌, ◌∷◌, ◌++◌, refl, sym, ap, inl, inr, true, none, some, List, [], arith,
  Option-cases, All-append, add64, Result, ok, err, All-put, Result-cases, nat_eq,
}
use shielder.Config.{BatchConfig, ensure_valid}
use shielder.App.Dkg.{new_dkg_instance}
use shielder.App.State.Inv.{
  HasGuard, last_config_total, IsOrdered, IsFiled, IsValid, find_last-some, find_last-none,
}
use shielder.App.State.{
  CheckError, App, find_last, last_config, check_config, update_check_tx_members, add_config,
  start_dkg,
}

-- A config may follow another.
abbrev pub Follows : BatchConfig → BatchConfig → Type 0
Follows last cfg =
    (last.start_batch_index ≤ cfg.start_batch_index) × (last.config_index < cfg.config_index)

-- The check passes only a valid config that may follow the last one.
pub check_config_lem :
    (last cfg : BatchConfig)
    → check_config last cfg ≡ none
    → Follows last cfg × (ensure_valid cfg ≡ none)
unfolding check_config
check_config_lem last cfg h = elim (Option-cases (ensure_valid cfg)) [
  | inl e ↦ ((ground (arith, e, h), ground (arith, e, h)), e)
  | inr (x, e) ↦ absurd (ground (arith, e, h))
]

HasGuard-append : (cs : List BatchConfig) (c : BatchConfig) → HasGuard cs → HasGuard (cs ++ c ∷ [])
HasGuard-append [] c h = absurd h
HasGuard-append (d ∷ cs) c h = h

Follows-trans : (a b c : BatchConfig) → Follows a b → Follows b c → Follows a c
Follows-trans a b c h k = (omega arith, omega arith)

IsOrdered-append :
    (cs : List BatchConfig) (c last : BatchConfig)
    → find_last (λ _. true) cs ≡ some last
    → Follows last c
    → IsOrdered cs
    → IsOrdered (cs ++ c ∷ [])
unfolding find_last
IsOrdered-append [] c last e f o = cc
IsOrdered-append (d ∷ cs) c last e f o = elim (Option-cases (find_last (λ _. true) cs)) [
  | inl p ↦
      let same : d ≡ last = ground (arith, p, e) in
      let empty : cs ≡ [] = only p in
      rw empty ((subst (λ z. Follows z c) (sym same) f, tt), (tt, tt))
  | inr (l, p) ↦
      let same : l ≡ last = ground (arith, p, e) in
      let p' = rw same at p in
      (
        All-append _ cs (c ∷ []) o.0 (
          Follows-trans d last c (find_last-some (Follows d) (λ _. true) cs last p' o.0).0 f,
          tt,
        ),
        IsOrdered-append cs c last p' f o.1,
      )
]
  where
    only : {xs : List BatchConfig} → find_last (λ _. true) xs ≡ none → xs ≡ []
    only {xs} h = go xs h
      where
        go : (ys : List BatchConfig) → find_last (λ _. true) ys ≡ none → ys ≡ []
        go [] k = refl
        go (y ∷ ys) k = absurd (ground (arith, (find_last-none (λ _. true) (y ∷ ys) k).0))

-- What an added config leaves as it was.
pub record Added (app app' : App) (bc : BatchConfig) : Type 0 where
  pub valid : IsValid app'
  pub configs : app'.configs ≡ app.configs ++ bc ∷ []
  pub same_nonces : app'.nonce_tracker ≡ app.nonce_tracker
  pub same_chain : app'.chain_id ≡ app.chain_id
  pub same_identities : app'.identities ≡ app.identities
  pub same_votes : app'.started_votes ≡ app.started_votes

pub add_config_lem :
    (app app' : App) (bc : BatchConfig)
    → add_config app bc ≡ ok (ok app')
    → (last : BatchConfig) × (last_config app.configs ≡ ok last)
      × (check_config last bc ≡ none)
      × (app' ≡ update_check_tx_members (record app { configs = app.configs ++ bc ∷ [] }))
unfolding add_config
add_config_lem app app' bc h = elim (Result-cases (last_config app.configs)) [
  | inr (e, p) ↦ absurd (ground (arith, p, h))
  | inl (last, p) ↦ elim (Option-cases (check_config last bc)) [
    | inr (e, q) ↦ absurd (ground (arith, p, q, h))
    | inl q ↦ (last, p, q, ground (arith, p, q, h))
  ]
]

pub last_config-find_last :
    (cs : List BatchConfig) (c : BatchConfig)
    → last_config cs ≡ ok c
    → find_last (λ _. true) cs ≡ some c
unfolding last_config
last_config-find_last cs c h = elim (Option-cases (find_last (λ _. true) cs)) [
  | inl p ↦ absurd (ground (arith, p, h))
  | inr (d, p) ↦ p ∙ ap some (ground (arith, p, h))
]

pub add_config-Added :
    (app app' : App) (bc : BatchConfig)
    → IsValid app
    → add_config app bc ≡ ok (ok app')
    → Added app app' bc
unfolding update_check_tx_members
add_config-Added app app' bc v h =
    let (last, p, q, same) = add_config_lem app app' bc h in
    subst (λ z. Added app z bc) (sym same)
      (record {
        valid = record {
          guard = HasGuard-append app.configs bc v.guard;
          ordered =
              IsOrdered-append app.configs bc last (last_config-find_last app.configs last p)
                (check_config_lem last bc q).0 v.ordered;
          voting = v.voting;
          eon_votings = v.eon_votings;
          filed = v.filed;
        };
        configs = refl;
        same_nonces = refl;
        same_chain = refl;
        same_identities = refl;
        same_votes = refl;
      })

pub start_dkg-IsValid : (app : App) (bc : BatchConfig) → IsValid app → IsValid (start_dkg app bc).0
unfolding start_dkg new_dkg_instance
start_dkg-IsValid app bc v = record {
  guard = v.guard;
  ordered = v.ordered;
  voting = v.voting;
  eon_votings = v.eon_votings;
  filed =
      All-put IsFiled (add64 app.eon_counter 1) (new_dkg_instance bc (add64 app.eon_counter 1))
        app.dkg_map v.filed refl;
}

-- A key generation that starts touches nothing but the counter and the map of generations.
pub start_dkg_same :
    (app : App) (bc : BatchConfig)
    → let app' = (start_dkg app bc).0 in
      (app'.configs ≡ app.configs)
      × (app'.nonce_tracker ≡ app.nonce_tracker)
      × (app'.chain_id ≡ app.chain_id)
      × (app'.identities ≡ app.identities)
unfolding start_dkg
start_dkg_same app bc = (refl, refl, refl, refl)

pub add_config_total :
    (app : App) (bc : BatchConfig)
    → HasGuard app.configs
    → (r : Result CheckError App) × (add_config app bc ≡ ok r)
unfolding add_config
add_config_total app bc h =
    let (last, p) = last_config_total app.configs h in
    (
      elim (check_config last bc) [
        | some e ↦ err e
        | none ↦ ok (update_check_tx_members (record app { configs = app.configs ++ bc ∷ [] }))
      ],
      rw p,
    )
