-- ===== src/Observe/Fetch/Pages.antt =====
-- What is fetched from a node that answers in pages is what the blocks hold, in their order.
use shielder.Base.{
  ◌+◌, ◌-◌, ◌*◌, ◌≤◌, ◌<◌, ◌≡◌, ◌∙◌, ◌&&◌, ◌∷◌, ◌++◌, ◌==◌, ℕ, zero, suc, refl, sym, ap, ap₂, inl,
  inr, Bool, true, false, not, some, List, [], arith, leb, Bool-cases, beq_self, length, word_mod,
  sign_bit, add64, signed_lt, ok, drop, take, take-drop, length-drop, take_all, length-take,
  drop-drop, lt_of_leb, le_of_leb, nat_eq,
}
use mathlib.Core.List.{append_assoc}
use shielder.External.{External}
use shielder.Observe.Shielder.{Shielder, apply_tx_events}
use shielder.Observe.Fetch.{
  Tx, Client, apply_txs, last_height, fetch_pages, fetch_from, fetch_and_apply_events,
  sync_to_height, per_query, per_page,
}

apply_txs-append :
    {x : External} (s : Shielder x) (ts us : List (Tx x))
    → apply_txs s (ts ++ us) ≡ apply_txs (apply_txs s ts) us
unfolding apply_txs
apply_txs-append s [] us = refl
apply_txs-append s (t ∷ ts) us = apply_txs-append (apply_tx_events s t) ts us

no_elements : {A : Type 0} (xs : List A) → length xs ≡ 0 → xs ≡ []
no_elements [] h = refl
no_elements (a ∷ xs) h = absurd (omega (arith, h))

module _ (current start n : ℕ) (word : current < word_mod) (first : add64 current 1 ≡ start)
    (some_block : 0 < n) (small : start + n + per_query ≤ sign_bit) where
  next_height : add64 current per_query ≡ start + per_query - 1
  next_height = omega (arith, word, first, small, some_block)

  last_height_short : n ≤ per_query → last_height current (start + n - 1) ≡ start + n - 1
  unfolding last_height
  last_height_short h = rw next_height (ground (arith, h, small, some_block))

  last_height_long : per_query < n → last_height current (start + n - 1) ≡ start + per_query - 1
  unfolding last_height
  last_height_long h = rw next_height (ground (arith, h, small, some_block))

-- The transactions of `n` blocks from a height on.
abbrev pub blocks : {x : External} → (ℕ → List (Tx x)) → ℕ → ℕ → List (Tx x)
blocks chain start zero = []
blocks chain start (suc n) = chain start ++ blocks chain (start + 1) n

module _ {x : External} (shmcl : Client x) (chain : ℕ → List (Tx x)) where
  -- The node finds the transactions of the blocks, and answers with the page that it is asked for.
  pub record IsHonest : Type 0 where
    pub answers :
        (start n p : ℕ)
        → 0 < n
        → shmcl.tx_search start (start + n - 1) (suc p) per_page
          ≡ some (record {
            total_count = length (blocks chain start n);
            txs = take per_page (drop (p * per_page) (blocks chain start n));
          })

  -- The pages from one on bring the transactions from its first on.
  fetch_pages_lem :
      (fuel start n p : ℕ) (may_return : Bool) (s : Shielder x)
      → IsHonest
      → 0 < n
      → p * per_page ≤ length (blocks chain start n)
      → length (blocks chain start n) ≤ p * per_page + fuel * per_page
      → 0 < fuel
      → fetch_pages shmcl fuel start (start + n - 1) (suc p) (p * per_page) may_return s
        ≡ ok (apply_txs s (drop (p * per_page) (blocks chain start n)))
  unfolding fetch_pages
  fetch_pages_lem zero start n p may_return s honest some_block low high pos =
      absurd (omega (arith, pos))
  fetch_pages_lem (suc fuel) start n p may_return s honest some_block low high pos =
      let txs = blocks chain start n in
      let page = drop (p * per_page) txs in
      let size = length-drop (p * per_page) txs low in
      rw (honest.answers start n p some_block) (elim (Bool-cases (may_return && length txs == 0)) [
        | inl none_left ↦ rw none_left (
            ap (λ l. ok (apply_txs s l)) (sym (no_elements page (ground (arith, size, none_left)))))
        | inr go_on ↦ rw go_on (elim (Bool-cases (leb (length txs) (suc p * per_page))) [
          | inl last ↦
              let whole : take per_page page ≡ page =
                take_all per_page page (ground (arith, size, last)) in
              let total : (p * per_page + length page == length txs) ≡ true =
                ground (arith, size) in
              rw last (rw whole (rw total refl))
          | inr more ↦
              let beyond = lt_of_leb (length txs) (suc p * per_page) more in
              let len = length-take per_page page (omega (arith, size, beyond)) in
              let s' = apply_txs s (take per_page page) in
              let ih =
                fetch_pages_lem fuel start n (suc p) false s' honest some_block
                  (omega (arith, beyond)) (omega (arith, high)) (omega (arith, beyond, high)) in
              rw more (
                ap₂ (λ q t. fetch_pages shmcl fuel start (start + n - 1) q t false s') (omega arith)
                  (omega (arith, len))
                ∙ ih
                ∙ ap (λ l. ok (apply_txs s' l))
                    (sym (drop-drop per_page (p * per_page) (suc p * per_page) txs (omega arith)))
                ∙ ap ok (sym (apply_txs-append s (take per_page page) (drop per_page page)))
                ∙ ap (λ l. ok (apply_txs s l)) (take-drop per_page page))
        ])
      ])

  blocks-add :
      (start m n : ℕ)
      → blocks chain start (m + n) ≡ blocks chain start m ++ blocks chain (start + m) n
  blocks-add start zero n = ap₂ (blocks chain) (omega arith) (omega arith)
  blocks-add start (suc m) n =
      let step : suc m + n ≡ suc (m + n) = omega arith in
      let shift : start + 1 + m ≡ start + suc m = omega arith in
      rw step (
        ap (λ l. chain start ++ l) (blocks-add (start + 1) m n)
        ∙ sym (
            append_assoc (chain start) (blocks chain (start + 1) m)
              (blocks chain (start + 1 + m) n))
        ∙ ap (λ k. chain start ++ blocks chain (start + 1) m ++ blocks chain k n) shift)

  -- One range of heights, of whatever length.
  fetch_range :
      (pages start n : ℕ) (may_return : Bool) (s : Shielder x)
      → IsHonest
      → 0 < n
      → length (blocks chain start n) ≤ pages * per_page
      → 0 < pages
      → fetch_pages shmcl pages start (start + n - 1) 1 0 may_return s
        ≡ ok (apply_txs s (blocks chain start n))
  fetch_range pages start n may_return s honest some_block bound pos =
      fetch_pages_lem pages start n 0 may_return s honest some_block (omega arith)
        (omega (arith, bound)) pos

  module _ (honest : IsHonest) (pages : ℕ) (pos : 0 < pages)
      (bound : (start n : ℕ)
        → n ≤ per_query
        → length (blocks chain start n) ≤ pages * per_page) where
    fetch_from_lem :
        (fuel current start n : ℕ) (cloned : Bool) (s : Shielder x)
        → current < word_mod
        → add64 current 1 ≡ start
        → 0 < n
        → start + n + per_query ≤ sign_bit
        → n ≤ fuel * per_query
        → fetch_from shmcl pages fuel current (start + n - 1) cloned s
          ≡ ok (apply_txs s (blocks chain start n))
    unfolding fetch_from
    fetch_from_lem zero current start n cloned s word first some_block small enough =
        absurd (omega (arith, some_block, enough))
    fetch_from_lem (suc fuel) current start n cloned s word first some_block small enough =
        let target = start + n - 1 in
        elim (Bool-cases (leb n per_query)) [
          | inl short ↦
              let h = le_of_leb n per_query short in
              let end = last_height_short current start n word first some_block small h in
              let range =
                fetch_range pages start n (not cloned && target == target) s honest some_block
                  (bound start n h) pos in
              rw end (rw first (rw range (rw (beq_self target) refl)))
          | inr long ↦
              let h = lt_of_leb n per_query long in
              let last = start + per_query - 1 in
              let end = last_height_long current start n word first some_block small h in
              let range =
                fetch_range pages start per_query (not cloned && last == target) s honest
                  (omega arith) (bound start per_query (omega arith)) pos in
              let go_on : (last == target) ≡ false = ground (arith, h) in
              let left = n - per_query in
              let s' = apply_txs s (blocks chain start per_query) in
              let ih =
                fetch_from_lem fuel last (start + per_query) left true s' (omega (arith, small, h))
                  (omega (arith, small, h)) (omega (arith, h)) (omega (arith, small, h))
                  (omega (arith, enough)) in
              let rest : start + per_query + left - 1 ≡ target = omega (arith, h) in
              let whole : per_query + left ≡ n = omega (arith, h) in
              rw end (
                rw first (
                  rw range (
                    rw go_on (
                      ap (λ t. fetch_from shmcl pages fuel last t true s') (sym rest)
                      ∙ ih
                      ∙ ap ok (
                          sym (
                            apply_txs-append s (blocks chain start per_query)
                              (blocks chain (start + per_query) left)))
                      ∙ ap (λ l. ok (apply_txs s l)) (sym (blocks-add start per_query left))
                      ∙ ap (λ k. ok (apply_txs s (blocks chain start k))) whole))))
        ]

    not_behind :
        (current n : ℕ)
        → current < word_mod
        → 0 < n
        → add64 current 1 + n + per_query ≤ sign_bit
        → signed_lt (add64 current 1 + n - 1) current ≡ false
    not_behind current n word some_block small = ground (arith, word, some_block, small)

    -- For a node that answers every search over blocks with the page that is asked for, with pages
    -- enough for the transactions of 500 blocks and ranges enough for the blocks, heights that
    -- stay below 2^63, and the node's status and commit known: `SyncToHeight` comes to an end,
    -- without an error, and the new view is the old one with the transactions of all blocks behind
    -- its own, up to the height, applied once each and in order.
    pub sync_to_height-blocks :
        (fuel n last : ℕ) (catching_up : Bool) (s : Shielder x)
        → s.current_block < word_mod
        → 0 < n
        → add64 (s.current_block) 1 + n + per_query ≤ sign_bit
        → n ≤ fuel * per_query
        → shmcl.catching_up ≡ some catching_up
        → shmcl.last_commit_height ≡ some last
        → sync_to_height shmcl pages fuel s (add64 (s.current_block) 1 + n - 1)
          ≡ ok (record (apply_txs s (blocks chain (add64 (s.current_block) 1) n)) {
            current_block = add64 (s.current_block) 1 + n - 1;
            last_committed_height = last;
            node_catching_up = some catching_up;
          })
    unfolding sync_to_height fetch_and_apply_events
    sync_to_height-blocks fuel n last catching_up s word some_block small enough status height =
        rw status (
          rw height (
            rw (not_behind (s.current_block) n word some_block small) (
              rw
                (fetch_from_lem fuel (s.current_block) (add64 (s.current_block) 1) n false s word
                  refl some_block small enough)
                refl)))
