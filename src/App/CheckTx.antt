-- ===== src/App/CheckTx.antt =====
-- The mempool's filter, which `Commit` resets (app/checktx.go).
pub mod Laws
use shielder.Base.{
  ◌&&◌, ◌∷◌, if◌then◌else◌, ℕ, Bool, true, false, not, List, [], ltb, length, Map, get_or_else, get,
  put, add64, signed_le, nat_eq,
}
use shielder.Shmsg.{Address, MessageWithNonce}
use shielder.App.Nonces.{NonceTracker, new_nonce_tracker, check, add}

-- The maximum number of transactions of one sender in a block.
abbrev pub max_txs_per_block : ℕ
max_txs_per_block = 10

pub record CheckTxState : Type 0 where
  pub members : Map Address Bool
  pub tx_counts : Map Address ℕ
  pub nonce_tracker : NonceTracker

unfoldable pub reset : CheckTxState → CheckTxState
reset s = record s { tx_counts = []; nonce_tracker = new_nonce_tracker }

unfoldable pub new_check_tx_state : CheckTxState
unfolding reset
new_check_tx_state =
    reset (record { members = []; tx_counts = []; nonce_tracker = new_nonce_tracker })

-- The loop over the addresses.
set_members_from : Map Address Bool → List Address → Map Address Bool
set_members_from m [] = m
set_members_from m (a ∷ rest) = set_members_from (put a true m) rest

unfoldable pub set_members : CheckTxState → List Address → CheckTxState
unfolding set_members_from
set_members s addresses = record s { members = set_members_from [] addresses }

-- A missing count reads as 0; the comparison is of `int`s, as is the increment.
abbrev pub tx_count : CheckTxState → Address → ℕ
tx_count s sender = get_or_else (get sender s.tx_counts) 0

abbrev pub is_member : CheckTxState → Address → Bool
is_member s sender = get_or_else (get sender s.members) false

unfoldable pub add_tx : CheckTxState → Address → MessageWithNonce → CheckTxState × Bool
add_tx s sender msg =
    if ltb 0 (length s.members) && not (is_member s sender)
    then (s, false)
    else if signed_le max_txs_per_block (tx_count s sender)
    then (s, false)
    else if not (check s.nonce_tracker sender msg.random_nonce)
    then (s, false)
    else (
      record s {
        tx_counts = put sender (add64 (tx_count s sender) 1) s.tx_counts;
        nonce_tracker = add s.nonce_tracker sender msg.random_nonce;
      },
      true,
    )
