-- ===== src/Observe/Fetch.antt =====
-- Fetching the events of new blocks from a tendermint node (keyper/observe/shutter.go). The node is a
-- parameter; its answers come in pages.
pub mod Pages
use shielder.Base.{
  ◌+◌, ◌*◌, ◌&&◌, ◌∷◌, ◌==◌, if◌then◌else◌, ◌>>=◌, ℕ, zero, suc, Bool, true, false, not, Option,
  some, List, [], leb, length, add64, signed_lt, Result, ok, err, or_err, nat_eq,
}
use shielder.External.{External}
use shielder.Events.{Event}
use shielder.Observe.Shielder.{Shielder, apply_tx_events}

-- A transaction, with what `MakeEvent` returns for each of its events.
abbrev pub Tx : External → Type 0
Tx x = List (Option (Event x))

pub record ResultTxSearch (x : External) : Type 0 where
  pub total_count : ℕ
  pub txs : List (Tx x)

-- `none` is a call that fails. `tx_search` takes the first and the last height, the page and its size.
pub record Client (x : External) : Type 0 where
  pub tx_search : ℕ → ℕ → ℕ → ℕ → Option (ResultTxSearch x)
  pub last_commit_height : Option ℕ
  pub catching_up : Option Bool

pub data FetchError : Type 0 where
  call_failed wrong_total bad_arguments out_of_fuel : FetchError

abbrev pub per_query : ℕ
per_query = 500

abbrev pub per_page : ℕ
per_page = 100

unfoldable pub apply_txs : {x : External} → Shielder x → List (Tx x) → Shielder x
apply_txs s [] = s
apply_txs s (tx ∷ rest) = apply_txs (apply_tx_events s tx) rest

-- The last height of the query behind `current`.
unfoldable pub last_height : ℕ → ℕ → ℕ
last_height current target =
    if signed_lt target (add64 current per_query) then target else add64 current per_query

module _ {x : External} (shmcl : Client x) where
  -- The inner loop of `fetchAndApplyEvents`, from a page on; `total` transactions came before it.
  -- Without a transaction in the last range, the first answer ends it.
  unfoldable pub fetch_pages :
      ℕ → ℕ → ℕ → ℕ → ℕ → Bool → Shielder x → Result FetchError (Shielder x)
  unfolding apply_txs
  fetch_pages zero start height page total may_return s = err out_of_fuel
  fetch_pages (suc fuel) start height page total may_return s =
      or_err (shmcl.tx_search start height page per_page) call_failed >>= λ res.
      let s' = apply_txs s (res.txs) in
      let total' = total + length (res.txs) in
      let more = fetch_pages fuel start height (page + 1) total' false s' in
      if may_return && res.total_count == 0
      then ok s
      else if leb (res.total_count) (page * per_page)
      then (if total' == res.total_count then ok s' else err wrong_total)
      else more

  -- The outer loop: `fuel` ranges of heights of at most `pages` pages each.
  unfoldable pub fetch_from : ℕ → ℕ → ℕ → ℕ → Bool → Shielder x → Result FetchError (Shielder x)
  unfolding fetch_pages last_height
  fetch_from pages zero current target cloned s = err out_of_fuel
  fetch_from pages (suc fuel) current target cloned s =
      let height = last_height current target in
      fetch_pages pages (add64 current 1) height 1 0 (not cloned && height == target) s >>= λ s'.
      let more = fetch_from pages fuel height target true s' in
      if height == target then ok s' else more

  unfoldable pub fetch_and_apply_events : ℕ → ℕ → Shielder x → ℕ → Result FetchError (Shielder x)
  unfolding fetch_from
  fetch_and_apply_events pages fuel s target =
      if signed_lt target (s.current_block)
      then err bad_arguments
      else fetch_from pages fuel (s.current_block) target false s

  unfoldable pub sync_to_height : ℕ → ℕ → Shielder x → ℕ → Result FetchError (Shielder x)
  unfolding fetch_and_apply_events
  sync_to_height pages fuel s height = do
    catching_up ← or_err (shmcl.catching_up) call_failed
    last ← or_err (shmcl.last_commit_height) call_failed
    clone ← fetch_and_apply_events pages fuel s height
    ok (record clone {
      current_block = height;
      last_committed_height = last;
      node_catching_up = some catching_up;
    })

  unfoldable pub sync_to_head : ℕ → ℕ → Shielder x → Result FetchError (Shielder x)
  unfolding sync_to_height
  sync_to_head pages fuel s = or_err (shmcl.last_commit_height) call_failed >>= λ height.
      if height == s.current_block then ok s else sync_to_height pages fuel s height
