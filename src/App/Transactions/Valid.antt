-- ===== src/App/Transactions/Valid.antt =====
-- Every transaction is answered, and keeps the invariant.
use shielder.Base.{
  ◌≡◌, ◌∙◌, ◌==◌, ℕ, refl, inl, inr, true, false, some, arith, Bool-cases, Option-cases, beq_self,
  get, ok, err, nat_eq, list_eq,
}
use shielder.Shmsg.{Bytes, Address, Message, MessageWithNonce}
use shielder.Shmsg.Message.{
  batch_config, batch_config_started, check_in, eon_start_vote, decryption_signature, poly_eval,
  poly_commitment, accusation, apology, epoch_secret_key_share, missing,
}
use shielder.App.Nonces.Laws.{check-add}
use shielder.App.Powermap.{ValidatorPubkey}
use mathlib.Core.Path.{subst}
use shielder.External.{External}
use shielder.App.Nonces.{check, add}
use shielder.App.Voting.Tally.{IterationLaw}
use shielder.App.State.{App}
use shielder.App.State.Inv.{IsValid}
use shielder.App.Deliver.{Response, Handled}
use shielder.App.Deliver.Post.{Delivered, Post, Post-map, Delivered-refl, IsValid-same}
use shielder.App.Deliver.Valid.{deliver_batch_config-Delivered}
use shielder.App.Deliver.Others.{
  deliver_check_in-Delivered, deliver_batch_config_started-Delivered,
  deliver_decryption_signature-Delivered, deliver_eon_start_vote_msg-Delivered,
}
use shielder.App.Transactions.{deliver_message, decode_tx, deliver_decoded, deliver_tx}
use shielder.App.Transactions.Generations.{
  handle_poly_eval_msg-Delivered, handle_poly_commitment_msg-Delivered,
  handle_accusation_msg-Delivered, handle_apology_msg-Delivered,
  handle_epoch_secret_key_share_msg-Delivered,
}

module _ (x : External) (law : IterationLaw x) where
  -- In a valid state, any message from any sender returns, with a valid state, the same nonces and
  -- chain, and every check-in kept.
  pub deliver_message-Delivered :
      (app : App) (m : Message) (sender : Address)
      → IsValid app
      → Post (Delivered app) (deliver_message x app m sender)
  unfolding deliver_message
  deliver_message-Delivered app (batch_config m) sender v =
      deliver_batch_config-Delivered x law app m sender v
  deliver_message-Delivered app (batch_config_started i) sender v =
      deliver_batch_config_started-Delivered x app i sender v
  deliver_message-Delivered app (check_in m) sender v = deliver_check_in-Delivered x app m sender v
  deliver_message-Delivered app (eon_start_vote i) sender v =
      deliver_eon_start_vote_msg-Delivered x law app i sender v
  deliver_message-Delivered app (decryption_signature i s) sender v =
      deliver_decryption_signature-Delivered x app i s sender v
  deliver_message-Delivered app (poly_eval m) sender v =
      handle_poly_eval_msg-Delivered x app m sender v
  deliver_message-Delivered app (poly_commitment m) sender v =
      handle_poly_commitment_msg-Delivered x app m sender v
  deliver_message-Delivered app (accusation m) sender v =
      handle_accusation_msg-Delivered x app m sender v
  deliver_message-Delivered app (apology m) sender v = handle_apology_msg-Delivered x app m sender v
  deliver_message-Delivered app (epoch_secret_key_share m) sender v =
      handle_epoch_secret_key_share_msg-Delivered x app m sender v
  deliver_message-Delivered app missing sender v = Delivered-refl v

-- What every step of the chain keeps: the invariant, the chain's name, used nonces and check-ins.
pub record Kept (app app' : App) : Type 0 where
  pub valid : IsValid app'
  pub same_chain : app'.chain_id ≡ app.chain_id
  pub nonces :
      (s : Address) (n : ℕ)
      → check app.nonce_tracker s n ≡ false
      → check app'.nonce_tracker s n ≡ false
  pub identities :
      (a : Address) (pk : ValidatorPubkey)
      → get a app.identities ≡ some pk
      → get a app'.identities ≡ some pk

pub Kept-trans : {a b c : App} → Kept a b → Kept b c → Kept a c
Kept-trans d e = record {
  valid = e.valid;
  same_chain = e.same_chain ∙ d.same_chain;
  nonces = λ s n h. e.nonces s n (d.nonces s n h);
  identities = λ a pk h. e.identities a pk (d.identities a pk h);
}

pub Delivered-Kept : {a b : App} → Delivered a b → Kept a b
Delivered-Kept d = record {
  valid = d.valid;
  same_chain = d.same_chain;
  nonces = λ s n h. rw (d.same_nonces) h;
  identities = d.identities;
}

pub Kept-refl : {a : App} → IsValid a → Kept a a
Kept-refl v = Delivered-Kept (Delivered-refl v)

nonce_added-Kept :
    (app : App) (s : Address) (n : ℕ)
    → IsValid app
    → Kept app (record app { nonce_tracker = add app.nonce_tracker s n })
nonce_added-Kept app s n v = record {
  valid = IsValid-same v (refl, refl, refl, refl);
  same_chain = refl;
  nonces = λ u k h. ground (arith, check-add app.nonce_tracker s u n k, h);
  identities = λ a pk h. h;
}

Post-total :
    {x : External} {Q : App → Type 0} (h : Handled x)
    → Post Q h
    → (app' : App) × (r : Response x) × (h ≡ ok (app', r)) × Q app'
Post-total (ok (app', r)) q = (app', r, refl, q)
Post-total (err e) q = absurd q

module _ (x : External) (law : IterationLaw x) where
  deliver_decoded-Kept :
      (app : App) (signer : Address) (msg : MessageWithNonce)
      → IsValid app
      → Post (Kept app) (deliver_decoded x app signer msg)
  unfolding deliver_decoded
  deliver_decoded-Kept app signer msg v = elim (Bool-cases (msg.chain_id == app.chain_id)) [
    | inr other ↦ rw (other, deliver_decoded) (Kept-refl v)
    | inl same ↦
        rw (same, deliver_decoded)
          (elim (Bool-cases (check app.nonce_tracker signer msg.random_nonce)) [
            | inr used ↦ rw used (Kept-refl v)
            | inl free ↦
                let a = record app {
                  nonce_tracker = add app.nonce_tracker signer msg.random_nonce;
                } in
                let k = nonce_added-Kept app signer msg.random_nonce v in
                rw free (
                  Post-map (Delivered a) (Kept app) (λ b d. Kept-trans k (Delivered-Kept d))
                    (deliver_message x a msg.msg signer)
                    (deliver_message-Delivered x law a msg.msg signer k.valid))
          ])
  ]

  -- In a valid state, for any order of Go's iteration, any bytes delivered as a transaction are
  -- answered, and the new state is valid, has the chain's name, and keeps every used nonce and
  -- every check-in.
  pub deliver_tx_total :
      (app : App) (tx : Bytes)
      → IsValid app
      → (app' : App) × (r : Response x) × (deliver_tx x app tx ≡ ok (app', r)) × Kept app app'
  unfolding deliver_tx
  deliver_tx_total app tx v =
      Post-total (deliver_tx x app tx) (elim (Option-cases (decode_tx x tx)) [
        | inl e ↦ rw (e, deliver_tx) (Kept-refl v)
        | inr ((signer, msg), e) ↦ rw (e, deliver_tx) (deliver_decoded-Kept app signer msg v)
      ])

  -- Delivered on its chain, a transaction uses its nonce up, whatever the response.
  pub deliver_tx-nonce :
      (app app' : App) (tx : Bytes) (signer : Address) (msg : MessageWithNonce) (r : Response x)
      → IsValid app
      → decode_tx x tx ≡ some (signer, msg)
      → msg.chain_id ≡ app.chain_id
      → deliver_tx x app tx ≡ ok (app', r)
      → check app'.nonce_tracker signer msg.random_nonce ≡ false
  unfolding deliver_tx deliver_decoded
  deliver_tx-nonce app app' tx signer msg r v e same h =
      let hit : (msg.chain_id == app.chain_id) ≡ true = rw same (beq_self app.chain_id) in
      elim (Bool-cases (check app.nonce_tracker signer msg.random_nonce)) [
        | inr used ↦ ground (arith, h, e, hit, used)
        | inl free ↦
            let a = record app { nonce_tracker = add app.nonce_tracker signer msg.random_nonce } in
            let valid = (nonce_added-Kept app signer msg.random_nonce v).valid in
            let k : deliver_message x a msg.msg signer ≡ ok (app', r) =
              ground (arith, h, e, hit, free) in
            let d : Delivered a app' =
              subst (Post (Delivered a)) k
                (deliver_message-Delivered x law a msg.msg signer valid) in
            rw (d.same_nonces) (
              ground (
                arith,
                check-add app.nonce_tracker signer signer msg.random_nonce msg.random_nonce,
              ))
      ]
