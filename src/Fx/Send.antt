-- ===== src/Fx/Send.antt =====
-- How a message is sent to shuttermint (keyper/fx/messagesender.go, and SignMessage in shmsg/encode.go).
pub mod Received
use shielder.Base.{
  ◌∷◌, ◌++◌, ◌==◌, if◌then◌else◌, ◌>>=◌, ℕ, Bool, true, false, not, Option, none, some, List, [],
  length, Result, ok, err, or_err, nat_eq,
}
use shielder.Shmsg.{Bytes, Message, MessageWithNonce}
use shielder.External.{External}
use shielder.Encoding.{encode_to_string}
use shielder.App.Transactions.{hash_prefix}

-- `proto.Marshal`, and `crypto.Sign` of a hash with the key of this keyper.
pub record Signing : Type 0 where
  pub marshal : MessageWithNonce → Option Bytes
  pub sign : Bytes → Option Bytes

-- The node: the chain's names in the block metas, and the code of the answer to a transaction.
pub record RpcClient : Type 0 where
  pub chain_ids : Option (List Bytes)
  pub broadcast_tx_commit : Bytes → Option ℕ

pub data SendError : Type 0 where
  not_sent no_block_meta remote_error : SendError

-- `IsRetriable`
abbrev is_retriable : SendError → Bool
is_retriable remote_error = false
is_retriable e = true

module _ (x : External) (signing : Signing) where
  unfoldable pub sign_message : MessageWithNonce → Option Bytes
  sign_message msg = elim (signing.marshal msg) [
    | none ↦ none
    | some marshaled ↦ elim (signing.sign (x.sha3_256 (hash_prefix ++ marshaled))) [
      | none ↦ none
      | some signature ↦ some (signature ++ marshaled)
    ]
  ]

  -- The chain's name, empty at first, and the node.
  module _ (node : RpcClient) where
    unfoldable pub maybe_fetch_chain_id : Bytes → Result SendError Bytes
    maybe_fetch_chain_id chain_id =
        if not (length chain_id == 0)
        then ok chain_id
        else (or_err (node.chain_ids) not_sent
            >>= elim [ [] ↦ err no_block_meta | id ∷ rest ↦ ok id ])

    unfoldable pub add_nonce_and_chain_id : Bytes → ℕ → Message → MessageWithNonce
    add_nonce_and_chain_id chain_id random_nonce msg = record {
      msg = msg;
      chain_id = chain_id;
      random_nonce = random_nonce;
    }

    unfoldable pub send_signed : MessageWithNonce → Result SendError Bytes
    unfolding sign_message
    send_signed msg = do
      signed ← or_err (sign_message msg) not_sent
      code ← or_err (node.broadcast_tx_commit (encode_to_string signed)) not_sent
      if code == 0 then ok (encode_to_string signed) else err remote_error

    -- The chain's name that is kept, also behind an error, and the transaction that was sent.
    unfoldable pub send_message : Bytes → ℕ → Message → Bytes × Result SendError Bytes
    unfolding maybe_fetch_chain_id add_nonce_and_chain_id send_signed
    send_message chain_id random_nonce msg = elim (maybe_fetch_chain_id chain_id) [
      | err e ↦ (chain_id, err e)
      | ok id ↦ (id, send_signed (add_nonce_and_chain_id id random_nonce msg))
    ]
