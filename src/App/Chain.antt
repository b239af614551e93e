-- ===== src/App/Chain.antt =====
-- The chain: any sequence of transactions, checks, ends of blocks and commits of app/app.go.
use mathlib.Core.Path.{subst}
use shielder.Base.{
  ◌≡◌, ◌==◌, ℕ, refl, inl, inr, true, some, List, arith, Option-cases, beq_self, get, ok, nat_eq,
  list_eq,
}
use shielder.Shmsg.{Bytes, Address, MessageWithNonce, CheckInMsg}
use shielder.External.{External}
use shielder.App.Voting.Tally.{IterationLaw}
use shielder.App.Powermap.{ValidatorPubkey, ValidatorUpdate}
use shielder.App.State.{App, new_shielder_app}
use shielder.App.State.Inv.{IsValid, new_shielder_app-IsValid}
use shielder.App.Deliver.{
  Response, error_response, nonce_used, already_checked_in, deliver_check_in,
}
use shielder.App.Deliver.Post.{IsValid-same, Delivered-valid}
use shielder.App.Transactions.{decode_tx, deliver_tx, deliver_decoded, check_tx}
use shielder.App.Transactions.Valid.{
  Kept, Kept-trans, Kept-refl, Delivered-Kept, deliver_tx_total, deliver_tx-nonce,
}
use shielder.App.Blocks.{RequestInitChain, init_chain, end_block, commit}
use shielder.App.Blocks.Genesis.{init_chain-IsValid}
use shielder.App.Blocks.Valid.{end_block_total}

module _ (x : External) where
  -- What tendermint makes the application do after `InitChain`.
  pub data Step (app app' : App) : Type 0 where
    delivered : (tx : Bytes) (r : Response x) → deliver_tx x app tx ≡ ok (app', r) → Step app app'
    checked : (tx : Bytes) → (check_tx x app tx).0 ≡ app' → Step app app'
    ended :
        (height : ℕ) (updates : List ValidatorUpdate)
        → end_block app height ≡ ok (app', updates)
        → Step app app'
    committed : commit app ≡ app' → Step app app'

  pub data Steps (app : App) : App → Type 0 where
    here : Steps app app
    next : {b c : App} → Steps app b → Step b c → Steps app c

  -- Only the mempool's own state changes.
  check_tx_same :
      (app : App) (tx : Bytes)
      → let app' = (check_tx x app tx).0 in
        (app'.configs ≡ app.configs)
        × (app'.config_voting ≡ app.config_voting)
        × (app'.eon_start_votings ≡ app.eon_start_votings)
        × (app'.dkg_map ≡ app.dkg_map)
        × (app'.nonce_tracker ≡ app.nonce_tracker)
        × (app'.chain_id ≡ app.chain_id)
        × (app'.identities ≡ app.identities)
  unfolding check_tx
  check_tx_same app tx = elim (Option-cases (decode_tx x tx)) [
    | inl e ↦ ground (arith, e)
    | inr (p, e) ↦ ground (arith, e)
  ]

  check_tx-Kept : (app : App) (tx : Bytes) → IsValid app → Kept app (check_tx x app tx).0
  check_tx-Kept app tx v =
      let (configs, voting, votings, dkgs, nonces, chain, ids) = check_tx_same app tx in
      Delivered-Kept
        (Delivered-valid (IsValid-same v (configs, voting, votings, dkgs)) (nonces, chain, ids))

  module _ (law : IterationLaw x) where
    Step-Kept : {app app' : App} → IsValid app → Step app app' → Kept app app'
    unfolding check_tx commit
    Step-Kept {app} {app'} v (delivered tx r h) =
        let (a, q, e, k) = deliver_tx_total x law app tx v in
        let same : a ≡ app' = ground (arith, e, h) in subst (Kept app) same k
    Step-Kept {app} v (checked tx h) = subst (Kept app) h (check_tx-Kept app tx v)
    Step-Kept {app} {app'} v (ended height updates h) =
        let (a, q, e, k) = end_block_total app height v in
        let same : a ≡ app' = ground (arith, e, h) in subst (Kept app) same (Delivered-Kept k)
    Step-Kept {app} v (committed h) = subst (Kept app) h (record {
      valid = IsValid-same v (refl, refl, refl, refl);
      same_chain = refl;
      nonces = λ s n k. k;
      identities = λ a pk k. k;
    })

    pub Steps-Kept : {app app' : App} → IsValid app → Steps app app' → Kept app app'
    Steps-Kept v here = Kept-refl v
    Steps-Kept v (next s t) = let k = Steps-Kept v s in Kept-trans k (Step-Kept k.valid t)

    -- From a valid state, a transaction that decodes to a signer and a message of this chain, and
    -- is delivered with whatever response, is refused ever after: following any sequence of steps
    -- of the chain, delivering it again answers that the nonce is used, and changes nothing.
    pub replay_refused :
        (app app1 app2 : App) (tx : Bytes) (signer : Address) (msg : MessageWithNonce)
        (r : Response x)
        → IsValid app
        → decode_tx x tx ≡ some (signer, msg)
        → msg.chain_id ≡ app.chain_id
        → deliver_tx x app tx ≡ ok (app1, r)
        → Steps app1 app2
        → deliver_tx x app2 tx ≡ ok (app2, error_response nonce_used)
    unfolding deliver_tx deliver_decoded
    replay_refused app app1 app2 tx signer msg r v e same h between =
        let first = (Steps-Kept v (next here (delivered tx r h))) in
        let later = Steps-Kept first.valid between in
        let used =
          later.nonces signer msg.random_nonce
            (deliver_tx-nonce x law app app1 tx signer msg r v e same h) in
        let hit : (msg.chain_id == app2.chain_id) ≡ true =
          rw (later.same_chain) (rw (first.same_chain) (rw same (beq_self app.chain_id))) in
        rw (e, deliver_tx) (ground (arith, hit, used))

    -- From a valid state in which a sender is checked in with a key, after any sequence of steps
    -- of the chain the sender is still checked in with that key, and a check-in of the sender's is
    -- refused and changes nothing.
    pub check_in_lasts :
        (app app' : App) (sender : Address) (pk : ValidatorPubkey) (msg : CheckInMsg)
        → IsValid app
        → get sender app.identities ≡ some pk
        → Steps app app'
        → (get sender app'.identities ≡ some pk)
          × (deliver_check_in x app' msg sender ≡ ok (app', error_response already_checked_in))
    unfolding deliver_check_in
    check_in_lasts app app' sender pk msg v h between =
        let kept = (Steps-Kept v between).identities sender pk h in
        (kept, rw (kept, deliver_check_in) refl)

    -- From the genesis on, for any order in which Go iterates over a map, and after any sequence
    -- of transactions, checks, ends of blocks and commits, every transaction is answered and every
    -- block ends: neither `DeliverTx` nor `EndBlock` panics.
    pub chain_goes_on :
        (req : RequestInitChain) (app app' : App)
        → init_chain x new_shielder_app req ≡ ok app
        → Steps app app'
        → ((tx : Bytes) → (b : App) × (r : Response x) × (deliver_tx x app' tx ≡ ok (b, r)))
          × ((height : ℕ)
              → (b : App) × (updates : List ValidatorUpdate) × (end_block app' height
                  ≡ ok (b, updates)))
    chain_goes_on req app app' begins s =
        let v = (init_chain-IsValid x new_shielder_app app req new_shielder_app-IsValid begins).0 in
        let k = Steps-Kept v s in
        (
          λ tx. let (b, r, e, _) = deliver_tx_total x law app' tx k.valid in (b, r, e),
          λ height. let (b, us, e, _) = end_block_total app' height k.valid in (b, us, e),
        )
