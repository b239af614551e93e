-- ===== src/App/Blocks/Valid.antt =====
-- Every block ends, and keeps the invariant.
use shielder.Base.{
  ◌≤◌, ◌<◌, ◌≡◌, ◌∷◌, ℕ, refl, ap, inl, inr, true, some, List, [], arith, Option-cases, All, ok,
}
use mathlib.Core.Path.{subst}
use shielder.Config.{BatchConfig}
use shielder.App.Powermap.{ValidatorUpdate}
use shielder.App.State.{App, last_config, find_last}
use shielder.App.State.Extend.{last_config-find_last}
use shielder.App.State.Inv.{IsValid, HasGuard, IsOrdered, last_config_total, find_last-none}
use shielder.App.Deliver.Post.{Delivered, Delivered-valid}
use shielder.App.Blocks.{set_last, start_last_config, update_last_config, end_block_with, end_block}

-- The same place in the order of the configs.
abbrev SamePlace : BatchConfig → BatchConfig → Type 0
SamePlace c d = (c.start_batch_index ≡ d.start_batch_index) × (c.config_index ≡ d.config_index)

updated-SamePlace :
    (app : App) (last : BatchConfig)
    → SamePlace
        (update_last_config (start_last_config app last).0 (start_last_config app last).1)
        last
unfolding update_last_config start_last_config
updated-SamePlace app last = ground arith

-- The last of a longer list is the last of its rest.
pub last_of_rest :
    (d e last : BatchConfig) (rest : List BatchConfig)
    → find_last (λ _. true) (d ∷ e ∷ rest) ≡ some last
    → find_last (λ _. true) (e ∷ rest) ≡ some last
unfolding find_last
last_of_rest d e last rest h = elim (Option-cases (find_last (λ _. true) (e ∷ rest))) [
  | inl p ↦ absurd (ground (arith, (find_last-none (λ _. true) (e ∷ rest) p).0))
  | inr (b, p) ↦ ground (arith, p, h)
]

All-set_last :
    (P : BatchConfig → Type 0) (c last : BatchConfig) (cs : List BatchConfig)
    → find_last (λ _. true) cs ≡ some last
    → (P last → P c)
    → All P cs
    → All P (set_last c cs)
unfolding set_last find_last
All-set_last P c last [] h f a = tt
All-set_last P c last (d ∷ []) h f a =
    let same : d ≡ last = ground (arith, h) in (f (subst P same a.0), tt)
All-set_last P c last (d ∷ e ∷ rest) h f a =
    (a.0, All-set_last P c last (e ∷ rest) (last_of_rest d e last rest h) f a.1)

set_last-HasGuard :
    (c last : BatchConfig) (cs : List BatchConfig)
    → find_last (λ _. true) cs ≡ some last
    → SamePlace c last
    → HasGuard cs
    → HasGuard (set_last c cs)
unfolding set_last find_last
set_last-HasGuard c last [] h s g = g
set_last-HasGuard c last (d ∷ []) h s g =
    let same : d ≡ last = ground (arith, h) in
    ground (arith, s, g, ap (λ (b : BatchConfig). b.start_batch_index) same)
set_last-HasGuard c last (d ∷ e ∷ rest) h s g = g

set_last-IsOrdered :
    (c last : BatchConfig) (cs : List BatchConfig)
    → find_last (λ _. true) cs ≡ some last
    → SamePlace c last
    → IsOrdered cs
    → IsOrdered (set_last c cs)
unfolding set_last
set_last-IsOrdered c last [] h s o = tt
set_last-IsOrdered c last (d ∷ []) h s o = (tt, tt)
set_last-IsOrdered c last (d ∷ e ∷ rest) h s o =
    let r = last_of_rest d e last rest h in
    (
      All-set_last
          (λ f. (d.start_batch_index ≤ f.start_batch_index) × (d.config_index < f.config_index)) c
          last (e ∷ rest) r (λ f. rw (s.0) (rw (s.1) f)) o.0,
      set_last-IsOrdered c last (e ∷ rest) r s o.1,
    )

started_last_same :
    (app : App) (last : BatchConfig)
    → let app' = (start_last_config app last).0 in
      (app'.configs ≡ app.configs)
      × (app'.config_voting ≡ app.config_voting)
      × (app'.eon_start_votings ≡ app.eon_start_votings)
      × (app'.dkg_map ≡ app.dkg_map)
      × (app'.nonce_tracker ≡ app.nonce_tracker)
      × (app'.chain_id ≡ app.chain_id)
      × (app'.identities ≡ app.identities)
unfolding start_last_config
started_last_same app last = ground arith

-- In a valid state a block ends, in a valid state, with the same nonces and chain's name, and with
-- every check-in kept.
pub end_block_total :
    (app : App) (height : ℕ)
    → IsValid app
    → (app' : App) × (updates : List ValidatorUpdate) × (end_block app height ≡ ok (app', updates))
      × Delivered app app'
unfolding end_block end_block_with
end_block_total app height v =
    ended (last_config_total app.configs v.guard).0 (last_config_total app.configs v.guard).1
  where
    ended :
        (last : BatchConfig)
        → last_config app.configs ≡ ok last
        → (app' : App) × (updates : List ValidatorUpdate) × (end_block app height
            ≡ ok (app', updates))
          × Delivered app app'
    ended last p =
        let voted = (start_last_config app last).0 in
        let updated = update_last_config voted (start_last_config app last).1 in
        let found = last_config-find_last app.configs last p in
        let place = updated-SamePlace app last in
        let (configs, voting, votings, dkgs, nonces, chain, ids) = started_last_same app last in
        (
          (end_block_with app height last).0,
          (end_block_with app height last).1,
          rw p refl,
          Delivered-valid
              (record {
                guard = rw configs (set_last-HasGuard updated last app.configs found place v.guard);
                ordered =
                    rw configs (set_last-IsOrdered updated last app.configs found place v.ordered);
                voting = rw voting (v.voting);
                eon_votings = rw votings (v.eon_votings);
                filed = rw dkgs (v.filed);
              })
              (nonces, chain, ids),
        )
