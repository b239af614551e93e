-- ===== src/Fx/Pending/Again.antt =====
-- Adding actions, and adding them again.
use shielder.Base.{
  ◌+◌, ◌-◌, ◌<◌, ◌≡◌, ℕ, refl, true, false, List, arith, ltb, leb, length, word_mod, add64, ok,
}
use shielder.Fx.Pending.{PendingActions, put_actions, add_actions}

-- The pending actions with these, from an id on.
unfoldable pub with_actions : {A : Type 0} → PendingActions A → ℕ → List A → PendingActions A
with_actions pending id actions = record pending {
  action_map = put_actions id actions (pending.action_map);
  current_id = id + length actions;
}

module _ {A : Type 0} (pending : PendingActions A) (id : ℕ) (actions : List A)
    (small : id + length actions < word_mod) where
  pub add_actions_fresh :
      pending.current_id ≡ id
      → 0 < length actions
      → add_actions pending id actions
        ≡ ok (with_actions pending id actions, (id, id + length actions))
  unfolding add_actions with_actions
  add_actions_fresh same some_action =
      let not_above : ltb id id ≡ false = ground arith in
      let behind : leb (add64 id (length actions)) id ≡ false =
        ground (arith, small, some_action) in
      let sum : add64 id (length actions) ≡ id + length actions = omega (arith, small) in
      let none_skipped : id - id ≡ 0 = omega arith in
      rw same (rw not_above (rw behind (rw none_skipped (rw sum refl))))

  pub add_actions_again :
      pending.current_id ≡ id + length actions
      → add_actions pending id actions ≡ ok (pending, (pending.current_id, pending.current_id))
  unfolding add_actions
  add_actions_again done =
      let not_above : ltb (pending.current_id) id ≡ false = ground (arith, done) in
      let behind : leb (add64 id (length actions)) (pending.current_id) ≡ true =
        ground (arith, small, done) in
      rw not_above (rw behind refl)
