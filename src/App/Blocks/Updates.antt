-- ===== src/App/Blocks/Updates.antt =====
-- The validators of a block: what `EndBlock` sends to tendermint.
use shielder.Base.{
  ◌≡◌, ◌∷◌, if◌then◌else◌, ℕ, refl, sym, inl, inr, false, none, some, List, [], arith, Option-cases,
  Map, get_or_else, HasKeysOnce, put-HasKeysOnce, get, ok, Result-cases, nat_eq,
}
use mathlib.Core.Path.{subst}
use shielder.Shmsg.{Address}
use shielder.Config.{BatchConfig}
use shielder.App.State.{App, last_config}
use shielder.App.Powermap.{
  validator_updates, ValidatorPubkey, pubkey_eq, Powermap, ValidatorUpdate, add_power,
  diff_powermaps,
}
use shielder.App.Powermap.Diff.{power_of, diff_powermaps_lem}
use shielder.App.Powermap.Sent.{sent, sent-validator_updates}
use shielder.App.Blocks.{
  update_last_config, set_last, non_existent_validator, make_keyper_powermap, active_config,
  current_validators, end_block_with, end_block, start_last_config,
}

make_keyper_powermap-HasKeysOnce :
    (identities : Map Address ValidatorPubkey) (ks : List Address) (pm : Powermap)
    → HasKeysOnce pm
    → HasKeysOnce (make_keyper_powermap identities pm ks)
unfolding make_keyper_powermap add_power
make_keyper_powermap-HasKeysOnce identities [] pm h = h
make_keyper_powermap-HasKeysOnce identities (k ∷ ks) pm h =
    make_keyper_powermap-HasKeysOnce identities ks _
      (put-HasKeysOnce (get_or_else (get k identities) non_existent_validator) _ pm h)

pub current_validators-HasKeysOnce :
    (app : App) → HasKeysOnce app.validators → HasKeysOnce (current_validators app)
unfolding current_validators
current_validators-HasKeysOnce app h = elim (Option-cases (active_config app.configs)) [
  | inl e ↦ rw (e, current_validators) h
  | inr (c, e) ↦
      rw (e, current_validators) (make_keyper_powermap-HasKeysOnce app.identities c.keypers [] refl)
]

started_validators :
    (app : App) (last : BatchConfig) → (start_last_config app last).0.validators ≡ app.validators
unfolding start_last_config
started_validators app last = ground arith

end_block_with-sent :
    (app : App) (height : ℕ) (last : BatchConfig) (k : ValidatorPubkey)
    → HasKeysOnce app.validators
    → app.dev_mode ≡ false
    → let (app', updates) = end_block_with app height last in
      HasKeysOnce app'.validators
      × (power_of k app'.validators
          ≡ (elim (sent k updates) [ some p ↦ p | none ↦ power_of k app.validators ]))
unfolding end_block_with
end_block_with-sent app height last k once dev =
    let voted = (start_last_config app last).0 in
    let updated = update_last_config voted (start_last_config app last).1 in
    let app' = record voted { configs = set_last updated voted.configs } in
    let new = current_validators-HasKeysOnce app' (rw (started_validators app last) once) in
    let updates = validator_updates (diff_powermaps app.validators (current_validators app')) in
    (
      new,
      subst
          (λ b. power_of k (current_validators app') ≡ (elim (sent k (if b then [] else updates)) [
            | some p ↦ p
            | none ↦ power_of k app.validators
          ]))
          (sym dev)
          (rw (sent-validator_updates k (diff_powermaps app.validators (current_validators app')))
            (diff_powermaps_lem app.validators (current_validators app') k new)),
    )

-- For an app whose validators have each key once and which is not in development mode, the updates
-- that `EndBlock` returns turn the old validators into the new: each key's power is what the list
-- sends for it, or, where it sends none, what it was; and the new validators have each key once.
pub end_block-sent :
    (app app' : App) (height : ℕ) (updates : List ValidatorUpdate) (k : ValidatorPubkey)
    → HasKeysOnce app.validators
    → app.dev_mode ≡ false
    → end_block app height ≡ ok (app', updates)
    → HasKeysOnce app'.validators
      × (power_of k app'.validators
          ≡ (elim (sent k updates) [ some p ↦ p | none ↦ power_of k app.validators ]))
unfolding end_block end_block_with
end_block-sent app app' height updates k once dev h =
    elim (Result-cases (last_config app.configs)) [
      | inr (e, p) ↦ absurd (ground (arith, p, h))
      | inl (last, p) ↦
          let same : end_block_with app height last ≡ (app', updates) = ground (arith, p, h) in
          subst
            (λ (r : App × List ValidatorUpdate).
              HasKeysOnce r.0.validators
              × (power_of k r.0.validators
                  ≡ (elim (sent k r.1) [ some p ↦ p | none ↦ power_of k app.validators ])))
            same (end_block_with-sent app height last k once dev)
    ]
