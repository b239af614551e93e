-- ===== src/Fx/Pending/Sorted.antt =====
-- The sorted ids are those of the pending actions.
use shielder.Base.{
  ◌≡◌, ◌∙◌, ◌||◌, ◌∷◌, ◌==◌, ℕ, refl, true, some, List, [], arith, contains, Map, keys, get, nat_eq,
}
use shielder.Fx.Pending.{PendingActions, insert_id, sort_ids, sorted_ids}

contains-insert_id :
    (i j : ℕ) (ids : List ℕ) → contains (insert_id i ids) j ≡ (i == j || contains ids j)
unfolding insert_id
contains-insert_id i j [] = refl
contains-insert_id i j (k ∷ ids) = ground (arith, contains-insert_id i j ids)

contains-sort_ids : (ids : List ℕ) (j : ℕ) → contains (sort_ids ids) j ≡ contains ids j
unfolding sort_ids
contains-sort_ids [] j = refl
contains-sort_ids (i ∷ ids) j =
    ground (arith, contains-insert_id i j (sort_ids ids), contains-sort_ids ids j)

contains-keys :
    {A : Type 0} (m : Map ℕ A) (j : ℕ) (a : A) → get j m ≡ some a → contains (keys m) j ≡ true
unfolding get
contains-keys [] j a h = cc
contains-keys ((k, b) ∷ m) j a h = ground (arith, contains-keys m j a, h)

pub contains-sorted_ids :
    {A : Type 0} (p : PendingActions A) (j : ℕ) (a : A)
    → get j (p.action_map) ≡ some a
    → contains (sorted_ids p) j ≡ true
unfolding sorted_ids
contains-sorted_ids p j a h =
    contains-sort_ids (keys (p.action_map)) j ∙ contains-keys (p.action_map) j a h
