-- ===== src/Tests/Sending.antt =====
-- A keyper sends its vote that a config has started, and the app takes it as the keyper's.
use shielder.Base.{
  ◌<◌, ◌≡◌, ◌∷◌, ◌++◌, if◌then◌else◌, ℕ, zero, suc, refl, Option, none, some, [], arith, ltb,
  length, replicate, All, ok,
}
use mathlib.Core.Path.{subst}
use shielder.Shmsg.{Bytes, Message, MessageWithNonce}
use shielder.Shmsg.Message.{
  batch_config, batch_config_started, check_in, eon_start_vote, decryption_signature, poly_eval,
  poly_commitment, accusation, apology, epoch_secret_key_share, missing,
}
use shielder.External.{External}
use shielder.Shcrypto.Padding.Blocks.{IsByte}
use shielder.Tests.Fixtures.{test_libraries, first_address, genesis_app}
use shielder.Encoding.{encode_to_string}
use shielder.App.Transactions.{signature_length, deliver_decoded, deliver_tx}
use shielder.Fx.Send.{Signing, RpcClient, send_message, add_nonce_and_chain_id}
use shielder.Fx.Send.Received.{SigningLaw, send_message-deliver_tx}

-- Only a vote whose numbers are bytes has an encoding: the nonce, the index and the chain's name.
abbrev marshal_vote : Message → ℕ → Bytes → Option Bytes
marshal_vote (batch_config_started i) n (c ∷ []) =
    if ltb i 256
    then if ltb n 256 then if ltb c 256 then some (n ∷ i ∷ c ∷ []) else none else none
    else none
marshal_vote m n c = none

abbrev unmarshal_vote : Bytes → Option MessageWithNonce
unmarshal_vote (n ∷ i ∷ c ∷ []) =
    some (record { msg = batch_config_started i; chain_id = c ∷ []; random_nonce = n })
unmarshal_vote bs = none

abbrev vote_libraries : External
vote_libraries = record test_libraries { unmarshal_message = unmarshal_vote }

abbrev signing_vote : Signing
signing_vote = record {
  marshal = λ m. marshal_vote m.msg m.random_nonce m.chain_id;
  sign = λ hash. some (replicate 65 2);
}

vote_back :
    (msg : Message) (n : ℕ) (chain_id bs : Bytes)
    → marshal_vote msg n chain_id ≡ some bs
    → (unmarshal_vote bs ≡ some (record { msg = msg; chain_id = chain_id; random_nonce = n }))
      × All IsByte bs
vote_back (batch_config_started i) n (c ∷ []) bs h =
    let e : bs ≡ n ∷ i ∷ c ∷ [] = grind (arith, h) in
    let small : (n < 256) × (i < 256) × (c < 256) =
      (grind (arith, h), grind (arith, h), grind (arith, h)) in
    rw e (refl, (small.0, (small.1, (small.2, tt))))
vote_back (batch_config_started i) n [] bs h = absurd (ground (arith, h))
vote_back (batch_config_started i) n (c ∷ d ∷ rest) bs h = absurd (ground (arith, h))
vote_back (batch_config m) n c bs h = absurd (ground (arith, h))
vote_back (check_in m) n c bs h = absurd (ground (arith, h))
vote_back (eon_start_vote i) n c bs h = absurd (ground (arith, h))
vote_back (decryption_signature i s) n c bs h = absurd (ground (arith, h))
vote_back (poly_eval m) n c bs h = absurd (ground (arith, h))
vote_back (poly_commitment m) n c bs h = absurd (ground (arith, h))
vote_back (accusation m) n c bs h = absurd (ground (arith, h))
vote_back (apology m) n c bs h = absurd (ground (arith, h))
vote_back (epoch_secret_key_share m) n c bs h = absurd (ground (arith, h))
vote_back missing n c bs h = absurd (ground (arith, h))

all_two : (n : ℕ) → All IsByte (replicate n 2)
all_two zero = tt
all_two (suc n) = (omega arith, all_two n)

vote_law : SigningLaw vote_libraries signing_vote 3
vote_law = record {
  marshal_back = λ m bs h. vote_back m.msg m.random_nonce m.chain_id bs h;
  sign_back = λ hash signature h.
      subst (λ s. (length s ≡ signature_length) × All IsByte s × (first_address s ≡ some 3))
        {x = replicate 65 2} (cc h) (refl, all_two 65, refl);
}

abbrev node_of_nine : RpcClient
node_of_nine = record { chain_ids = some ((9 ∷ []) ∷ []); broadcast_tx_commit = λ tx. some 0 }

abbrev vote : Message
vote = batch_config_started 4

-- The base64 of the signature and of the bytes 7, 4 and 9.
abbrev sent_vote : Bytes
sent_vote = encode_to_string (replicate 65 2 ++ 7 ∷ 4 ∷ 9 ∷ [])

sends : send_message vote_libraries signing_vote node_of_nine [] 7 vote ≡ (9 ∷ [], ok sent_vote)
unfolding send_message
sends = refl

send_message-deliver_tx_example :
    deliver_tx vote_libraries genesis_app sent_vote
    ≡ deliver_decoded vote_libraries genesis_app 3
        (add_nonce_and_chain_id vote_libraries signing_vote node_of_nine (9 ∷ []) 7 vote)
send_message-deliver_tx_example =
    send_message-deliver_tx vote_libraries signing_vote 3 vote_law node_of_nine genesis_app []
      (9 ∷ []) sent_vote 7 vote sends
