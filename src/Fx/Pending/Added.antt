-- ===== src/Fx/Pending/Added.antt =====
-- Which actions are pending after some are added (keyper/fx/pending.go).
use shielder.Base.{
  ◌+◌, ◌-◌, ◌≤◌, ◌<◌, ◌≡◌, ◌⊎◌, ◌∷◌, ◌==◌, ℕ, zero, suc, refl, inl, inr, true, some, List, [],
  arith, ltb, leb, Bool-cases, length, contains, Map, HasKeysOnce, get-put, put-HasKeysOnce, get,
  put, word_mod, add64, drop, Returns, nat_eq,
}
use shielder.PureDkg.Phases.{range}
use shielder.Fx.Pending.{PendingActions, put_actions, add_actions}

module _ {A : Type 0} where
  drop_shorter : (n : ℕ) (xs : List A) → length (drop n xs) ≤ length xs
  drop_shorter zero xs = omega arith
  drop_shorter (suc n) [] = omega arith
  drop_shorter (suc n) (x ∷ xs) = omega (arith, drop_shorter n xs)

  put_found :
      (new : List A) (start id : ℕ) (m : Map ℕ A) (a : A)
      → start + length new < word_mod
      → get id (put_actions start new m) ≡ some a
      → (contains (range start (length new)) id ≡ true) ⊎ (get id m ≡ some a)
  unfolding put_actions
  put_found [] start id m a h p = inr p
  put_found (b ∷ new) start id m a h p =
      let later : add64 start 1 ≡ start + 1 = omega (arith, h) in
      elim (put_found new (start + 1) id (put start b m) a (omega (arith, h)) (rw later at p)) [
        | inl new_id ↦ inl (ground (arith, new_id))
        | inr q ↦ elim (Bool-cases (start == id)) [
          | inl same ↦ inl (ground (arith, same))
          | inr other ↦ inr (ground (arith, get-put start id b m, q, other))
        ]
      ]

  put_actions-HasKeysOnce :
      (new : List A) (start : ℕ) (m : Map ℕ A)
      → HasKeysOnce m
      → HasKeysOnce (put_actions start new m)
  unfolding put_actions
  put_actions-HasKeysOnce [] start m h = h
  put_actions-HasKeysOnce (b ∷ new) start m h =
      put_actions-HasKeysOnce new (add64 start 1) (put start b m) (put-HasKeysOnce start b m h)

  -- What adding leaves: the old actions, and new ones with the ids that are returned.
  pub record Added (p q : PendingActions A) (start end : ℕ) : Type 0 where
    pub hashes : q.main_chain_tx_hashes ≡ p.main_chain_tx_hashes
    pub once : HasKeysOnce (p.action_map) → HasKeysOnce (q.action_map)
    pub found :
        (id : ℕ) (a : A)
        → get id (q.action_map) ≡ some a
        → (contains (range start (end - start)) id ≡ true) ⊎ (get id (p.action_map) ≡ some a)

  pub add_actions-Added :
      (p : PendingActions A) (id : ℕ) (actions : List A)
      → p.current_id + length actions < word_mod
      → Returns (λ r. Added p r.0 r.1.0 r.1.1) (add_actions p id actions)
  unfolding add_actions
  add_actions-Added p id actions h = elim (Bool-cases (ltb (p.current_id) id)) [
    | inl ahead ↦ rw (ahead, add_actions) tt
    | inr fine ↦ elim (Bool-cases (leb (add64 id (length actions)) (p.current_id))) [
      | inl known ↦
          rw (fine, known, add_actions)
            (record { hashes = refl; once = λ o. o; found = λ i a q. inr q })
      | inr some_new ↦
          let start = p.current_id in
          let new = drop (start - id) actions in
          let size : length new ≤ length actions = drop_shorter (start - id) actions in
          let count : add64 start (length new) - start ≡ length new = omega (arith, h, size) in
          rw (fine, some_new, add_actions)
            (record {
              hashes = refl;
              once = λ o. put_actions-HasKeysOnce new start (p.action_map) o;
              found = λ i a q.
                  rw count (put_found new start i (p.action_map) a (omega (arith, h, size)) q);
            })
    ]
  ]
