-- ===== src/Fx/Pending.antt =====
-- The actions that run or are to be run, by their ids (keyper/fx/pending.go). Each method holds the
-- mutex, and saves what it changes, so that the state is also what stands on the disk.
pub mod Again
pub mod Sorted
pub mod Added
use shielder.Base.{
  ◌-◌, ◌∷◌, if◌then◌else◌, ℕ, Option, List, [], ltb, leb, length, replicate, Map, get_or_else, keys,
  get, put, delete, add64, Result, ok, err, drop, nat_eq,
}
use shielder.Shmsg.{Bytes}
use shielder.Panic.{Panic, bad_argument}

pub record PendingActions (A : Type 0) : Type 0 where
  pub action_map : Map ℕ A
  pub main_chain_tx_hashes : Map ℕ Bytes
  pub current_id : ℕ

-- Go's `sort.Slice` by `<`, as an insertion sort.
insert_id : ℕ → List ℕ → List ℕ
insert_id id [] = id ∷ []
insert_id id (i ∷ ids) = let rest = insert_id id ids in if ltb i id then i ∷ rest else id ∷ i ∷ ids

sort_ids : List ℕ → List ℕ
unfolding insert_id
sort_ids [] = []
sort_ids (id ∷ ids) = insert_id id (sort_ids ids)

module _ {A : Type 0} where
  unfoldable pub new_pending_actions : PendingActions A
  new_pending_actions = record { action_map = []; main_chain_tx_hashes = []; current_id = 0 }

  unfoldable pub sorted_ids : PendingActions A → List ℕ
  unfolding sort_ids
  sorted_ids pending = sort_ids (keys (pending.action_map))

  -- The loop of `AddActions`, from the id of the first action on.
  unfoldable pub put_actions : ℕ → List A → Map ℕ A → Map ℕ A
  put_actions id [] m = m
  put_actions id (a ∷ rest) m = put_actions (add64 id 1) rest (put id a m)

  -- The new state, and the first id to be scheduled with the one behind the last.
  unfoldable pub add_actions :
      PendingActions A → ℕ → List A → Result Panic (PendingActions A × (ℕ × ℕ))
  unfolding put_actions
  add_actions pending id actions =
      let start = pending.current_id in
      let new = drop (start - id) actions in
      let end = add64 start (length new) in
      if ltb start id
      then err bad_argument
      else if leb (add64 id (length actions)) start
      then ok (pending, (start, start))
      else ok (
        record pending {
          action_map = put_actions start new (pending.action_map);
          current_id = end;
        },
        (start, end),
      )

  unfoldable pub set_main_chain_tx_hash : PendingActions A → ℕ → Bytes → PendingActions A
  set_main_chain_tx_hash pending id hash = record pending {
    main_chain_tx_hashes = put id hash (pending.main_chain_tx_hashes);
  }

  -- A missing hash is the zero hash of the map's value type.
  unfoldable pub get_main_chain_tx_hash : PendingActions A → ℕ → Bytes
  get_main_chain_tx_hash pending id =
      get_or_else (get id (pending.main_chain_tx_hashes)) (replicate 32 0)

  unfoldable pub remove_action : PendingActions A → ℕ → PendingActions A
  remove_action pending id = record pending {
    action_map = delete id (pending.action_map);
    main_chain_tx_hashes = delete id (pending.main_chain_tx_hashes);
  }

  unfoldable pub get_action : PendingActions A → ℕ → Option A
  get_action pending id = get id (pending.action_map)
