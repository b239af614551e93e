-- ===== src/App/CheckTx/Laws.antt =====
-- What the mempool's filter lets through.
use shielder.Base.{
  ◌+◌, ◌≤◌, ◌<◌, ◌≡◌, ◌⊎◌, true, false, [], arith, =ℕ_iff, get-put, get-put_self, get, add64,
  nat_eq,
}
use shielder.Shmsg.{Address, MessageWithNonce}
use shielder.App.Nonces.{check}
use shielder.App.Nonces.Laws.{check-add}
use shielder.App.CheckTx.{CheckTxState, reset, add_tx, tx_count, is_member, max_txs_per_block}

-- No sender is beyond the limit.
abbrev pub IsWithinLimit : CheckTxState → Type 0
IsWithinLimit s = (a : Address) → tx_count s a ≤ max_txs_per_block

pub reset-IsWithinLimit : (s : CheckTxState) → IsWithinLimit (reset s)
unfolding reset get
reset-IsWithinLimit s a = omega arith

-- If every sender has at most `MaxTxsPerBlock` transactions counted, that still holds after any
-- transaction is offered to the mempool's filter.
pub add_tx-IsWithinLimit :
    (s : CheckTxState) (sender : Address) (msg : MessageWithNonce)
    → IsWithinLimit s
    → IsWithinLimit (add_tx s sender msg).0
unfolding add_tx
add_tx-IsWithinLimit s sender msg h a = ground (
  arith,
  h a,
  h sender,
  =ℕ_iff sender a,
  get-put sender a (add64 (tx_count s sender) 1) s.tx_counts,
)

-- While no sender is beyond the limit, a transaction that the mempool's filter passes is of a
-- member, or there are no members, its sender is below the limit and its nonce is free; passing
-- counts it and takes the nonce; one that does not pass changes nothing.
pub add_tx_lem :
    (s : CheckTxState) (sender : Address) (msg : MessageWithNonce)
    → IsWithinLimit s
    → ((add_tx s sender msg).1 ≡ true
        → ((s.members ≡ []) ⊎ (is_member s sender ≡ true))
          × (tx_count s sender < max_txs_per_block)
          × (check s.nonce_tracker sender msg.random_nonce ≡ true)
          × (tx_count (add_tx s sender msg).0 sender ≡ tx_count s sender + 1)
          × (check (add_tx s sender msg).0.nonce_tracker sender msg.random_nonce ≡ false))
      × ((add_tx s sender msg).1 ≡ false → (add_tx s sender msg).0 ≡ s)
unfolding add_tx
add_tx_lem s sender msg h = ground (
  arith,
  h sender,
  get-put_self sender (add64 (tx_count s sender) 1) s.tx_counts,
  check-add s.nonce_tracker sender sender msg.random_nonce msg.random_nonce,
)
