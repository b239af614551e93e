-- ===== src/App/Blocks/Genesis.antt =====
-- The state in which the chain begins.
use shielder.Base.{
  ◌≡◌, ◌∷◌, refl, inl, inr, true, none, some, [], arith, Bool-cases, Option-cases, ok,
}
use shielder.External.{External, GenesisAppState}
use shielder.Config.{ensure_valid}
use shielder.App.State.{App, update_check_tx_members}
use shielder.App.State.Inv.{IsValid}
use shielder.App.Deliver.Post.{IsValid-same}
use shielder.App.Powermap.{Powermap, make_powermap}
use shielder.App.Blocks.{RequestInitChain, genesis_config, is_new_chain, init_chain}

-- When `InitChain` returns from a valid state, the new state is valid and has the chain's name of
-- the request.
pub init_chain-IsValid :
    (x : External) (app app' : App) (req : RequestInitChain)
    → IsValid app
    → init_chain x app req ≡ ok app'
    → IsValid app' × (app'.chain_id ≡ req.chain_id)
unfolding init_chain update_check_tx_members
init_chain-IsValid x app app' req v h =
    elim (Option-cases (x.unmarshal_genesis req.app_state_bytes)) [
      | inl e ↦ absurd (ground (arith, e, h))
      | inr (g, e) ↦ elim (Option-cases (ensure_valid (genesis_config g.keypers g.threshold))) [
        | inr (bad, p) ↦ absurd (ground (arith, e, p, h))
        | inl p ↦ elim (Bool-cases (is_new_chain app.configs)) [
          | inr old ↦
              let same : app' ≡ record app { chain_id = req.chain_id } =
                ground (arith, e, p, old, h) in
              rw same (IsValid-same v (refl, refl, refl, refl), refl)
          | inl new ↦ elim (Option-cases (make_powermap req.validators)) [
            | inl q ↦ absurd (ground (arith, e, p, new, q, h))
            | inr (validators, q) ↦
                let (configs, voting, votings, dkgs, chain) = fields e p new q in
                (
                  record {
                    guard = rw configs refl;
                    ordered = rw configs (tt, tt);
                    voting = rw voting (v.voting);
                    eon_votings = rw votings (v.eon_votings);
                    filed = rw dkgs (v.filed);
                  },
                  chain,
                )
          ]
        ]
      ]
    ]
  where
    fields :
        {g : GenesisAppState} {validators : Powermap}
        → x.unmarshal_genesis req.app_state_bytes ≡ some g
        → ensure_valid (genesis_config g.keypers g.threshold) ≡ none
        → is_new_chain app.configs ≡ true
        → make_powermap req.validators ≡ some validators
        → (app'.configs ≡ genesis_config g.keypers g.threshold ∷ [])
          × (app'.config_voting ≡ app.config_voting)
          × (app'.eon_start_votings ≡ app.eon_start_votings)
          × (app'.dkg_map ≡ app.dkg_map)
          × (app'.chain_id ≡ req.chain_id)
    fields e p new q = ground (arith, e, p, new, q, h)
