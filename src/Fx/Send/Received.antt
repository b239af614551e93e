-- ===== src/Fx/Send/Received.antt =====
-- The app receives what a keyper sends, from this keyper.
use shielder.Base.{
  ◌≡◌, ◌++◌, ℕ, refl, inl, inr, false, some, arith, ltb, Option-cases, length, length-append, All,
  All-append, ok, Result-cases, take_front, drop_front,
}
use shielder.Shmsg.{Bytes, Address, Message, MessageWithNonce}
use shielder.External.{External}
use shielder.Shcrypto.Padding.Blocks.{IsByte}
use shielder.Encoding.{encode_to_string}
use shielder.Encoding.Roundtrip.{decode_string-encode_to_string}
use shielder.App.State.{App}
use shielder.App.Transactions.{
  signature_length, hash_prefix, get_signer, get_message, decode_tx, deliver_decoded, deliver_tx,
}
use shielder.Fx.Send.{
  Signing, RpcClient, sign_message, maybe_fetch_chain_id, add_nonce_and_chain_id, send_message,
  send_signed,
}

module _ (x : External) (signing : Signing) (own : Address) where
  -- A message is read as it was written, and a signature is the keyper's.
  pub record SigningLaw : Type 0 where
    pub marshal_back :
        (m : MessageWithNonce) (bs : Bytes)
        → signing.marshal m ≡ some bs
        → (x.unmarshal_message bs ≡ some m) × All IsByte bs
    pub sign_back :
        (hash signature : Bytes)
        → signing.sign hash ≡ some signature
        → (length signature ≡ signature_length)
          × All IsByte signature
          × (x.recover_address hash signature ≡ some own)

  module _ (law : SigningLaw) where
    signed_parts :
        (m : MessageWithNonce) (signed : Bytes)
        → sign_message x signing m ≡ some signed
        → (bs : Bytes) × (signature : Bytes) × (signing.marshal m ≡ some bs)
          × (signing.sign (x.sha3_256 (hash_prefix ++ bs)) ≡ some signature)
          × (signed ≡ signature ++ bs)
    unfolding sign_message
    signed_parts m signed h = elim (Option-cases (signing.marshal m)) [
      | inl f ↦ absurd (ground (arith, f, h))
      | inr (bs, f) ↦ elim (Option-cases (signing.sign (x.sha3_256 (hash_prefix ++ bs)))) [
        | inl g ↦ absurd (ground (arith, f, g, h))
        | inr (signature, g) ↦ (bs, signature, f, g, ground (arith, f, g, h))
      ]
    ]

    decode_tx-append :
        (m : MessageWithNonce) (bs signature : Bytes)
        → signing.marshal m ≡ some bs
        → signing.sign (x.sha3_256 (hash_prefix ++ bs)) ≡ some signature
        → decode_tx x (encode_to_string (signature ++ bs)) ≡ some (own, m)
    unfolding decode_tx get_signer get_message
    decode_tx-append m bs signature f g =
        let read = law.marshal_back m bs f in
        let made = law.sign_back (x.sha3_256 (hash_prefix ++ bs)) signature g in
        let short : ltb (length (signature ++ bs)) signature_length ≡ false =
          grind (arith, made.0, length-append signature bs) in
        rw
          (
            decode_tx,
            decode_string-encode_to_string (signature ++ bs)
                (All-append IsByte signature bs made.1 read.1),
            get_signer,
            short,
            drop_front signature_length signature bs made.0,
            take_front signature_length signature bs made.0,
            made.2,
            get_message,
            drop_front signature_length signature bs made.0,
            read.0,
          )
          refl

    decode_tx-sign_message :
        (m : MessageWithNonce) (signed : Bytes)
        → sign_message x signing m ≡ some signed
        → decode_tx x (encode_to_string signed) ≡ some (own, m)
    decode_tx-sign_message m signed h =
        let (bs, signature, f, g, e) = signed_parts m signed h in
        rw e (decode_tx-append m bs signature f g)

    module _ (node : RpcClient) where
      send_signed-encoded :
          (m : MessageWithNonce) (tx : Bytes)
          → send_signed x signing node m ≡ ok tx
          → (signed : Bytes) × (sign_message x signing m ≡ some signed)
            × (tx ≡ encode_to_string signed)
      unfolding send_signed
      send_signed-encoded m tx h = elim (Option-cases (sign_message x signing m)) [
        | inl f ↦ absurd (ground (arith, f, h))
        | inr (signed, f) ↦
            elim (Option-cases (node.broadcast_tx_commit (encode_to_string signed))) [
              | inl g ↦ absurd (ground (arith, f, g, h))
              | inr (code, g) ↦ (signed, f, ground (arith, f, g, h))
            ]
      ]

      send_signed-deliver_tx :
          (app : App) (m : MessageWithNonce) (tx : Bytes)
          → send_signed x signing node m ≡ ok tx
          → deliver_tx x app tx ≡ deliver_decoded x app own m
      unfolding deliver_tx deliver_decoded
      send_signed-deliver_tx app m tx h =
          let (signed, g, e) = send_signed-encoded m tx h in
          rw (e, deliver_tx, decode_tx-sign_message m signed g) refl

      -- When `SendMessage` returns without an error, and messages are read as they were written
      -- and signatures recovered as the keyper's own: `DeliverTx`, given the transaction that was
      -- sent, in any state of the app, handles the message that was sent, with its nonce and the
      -- chain's name that the sender keeps, as one from the keyper's address.
      pub send_message-deliver_tx :
          (app : App) (chain_id id tx : Bytes) (random_nonce : ℕ) (msg : Message)
          → send_message x signing node chain_id random_nonce msg ≡ (id, ok tx)
          → deliver_tx x app tx
            ≡ deliver_decoded x app own (add_nonce_and_chain_id x signing node id random_nonce msg)
      unfolding send_message
      send_message-deliver_tx app chain_id id tx random_nonce msg h =
          elim (Result-cases (maybe_fetch_chain_id x signing node chain_id)) [
            | inl (id', f) ↦
                let sent : send_signed x signing node
                      (add_nonce_and_chain_id x signing node id random_nonce msg)
                    ≡ ok tx =
                  ground (arith, f, h) in
                send_signed-deliver_tx app
                  (add_nonce_and_chain_id x signing node id random_nonce msg) tx sent
            | inr (e, f) ↦ absurd (ground (arith, f, h))
          ]
