-- ===== src/Decide/Appeals.antt =====
-- When a keyper appeals against an accusation (keyper/decide.go).
use shielder.Base.{
  ◌/◌, ◌&&◌, ◌||◌, ◌∷◌, ◌++◌, ◌==◌, if◌then◌else◌, ◌>>=◌, ℕ, not, none, some, List, [], map, ltb,
  length, replicate, contains, get, Result, ok, take, any, insert, nat_eq, list_eq,
}
use shielder.Shmsg.{Bytes}
use shielder.Panic.{Panic}
use shielder.External.{External}
use shielder.Contract.{signatures_to_contract_format}
use shielder.MainChain
use shielder.Observe.{find_batch_config_by_batch_index}
use shielder.Observe.Signatures.{get_sorted_decryption_signatures_with_indices}
use shielder.Fx.{Action, appeal}
use shielder.Decide.{fold, Decider, add_action}

-- `syncPendingAppeals`
unfoldable pub drop_appealed : List MainChain.Accusation → List ℕ → List ℕ
drop_appealed accusations [] = []
drop_appealed accusations (h ∷ rest) =
    let others = drop_appealed accusations rest in
    if any (λ (a : MainChain.Accusation). h == a.half_step && a.appealed) accusations
    then others
    else h ∷ others

module _ {x : External} where
  -- The end of the loop's body in `maybeAppeal`, once there are enough signatures.
  send_appeal :
      Decider x → MainChain.Accusation → Bytes → List Bytes → List ℕ → Result Panic (Decider x)
  send_appeal d a hash signatures indices =
      signatures_to_contract_format signatures >>= λ formatted.
      let action : Action x.curve = appeal (record {
        half_step = a.half_step;
        batch_hash = take 32 (hash ++ replicate 32 0);
        signer_indices = indices;
        signatures = formatted;
      }) in
      let pending = insert (a.half_step) (d.state.pending_appeals) in
      ok (add_action (record d { state = record (d.state) { pending_appeals = pending } }) action)

  -- The body of the loop of `maybeAppeal`.
  unfoldable pub appeal_against : Decider x → MainChain.Accusation → Result Panic (Decider x)
  unfolding send_appeal
  appeal_against d a =
      let b = a.half_step / 2 in
      if a.appealed || contains (d.state.pending_appeals) (a.half_step)
      then ok d
      else (elim (get (a.half_step) (d.main_chain.cipher_execution_receipts)) [
        | none ↦ ok d
        | some receipt ↦ elim (get b (d.state.batches)) [
          | none ↦ ok d
          | some st ↦
              if not (receipt.batch_hash == st.decrypted_batch_hash)
              then ok d
              else (get_sorted_decryption_signatures_with_indices (d.shielder) b >>= λ r.
                  let d' = record d { shielder = r.0 } in
                  elim r.1 [
                    | none ↦ ok d'
                    | some sigs ↦
                        find_batch_config_by_batch_index (r.0.batch_configs) b >>= λ config.
                        if ltb (length sigs.0) config.threshold
                        then ok d'
                        else send_appeal d' a (st.decrypted_batch_hash) sigs.0 sigs.1
                  ])
        ]
      ])

  unfoldable pub maybe_appeal : Decider x → Result Panic (Decider x)
  unfolding appeal_against drop_appealed
  maybe_appeal d =
      let accusations = map (λ p. p.1) (d.main_chain.accusations) in
      let pending = drop_appealed accusations (d.state.pending_appeals) in
      fold appeal_against (record d { state = record (d.state) { pending_appeals = pending } })
        accusations
