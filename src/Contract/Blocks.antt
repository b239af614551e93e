-- ===== src/Contract/Blocks.antt =====
-- The batch of a block, and the blocks of a batch (contract/config.go).
use shielder.Base.{
  ◌+◌, ◌-◌, ◌*◌, ◌/◌, ◌≤◌, ◌<◌, ◌≡◌, ◌∙◌, ◌↔◌, ◌==◌, ℕ, refl, sym, inl, inr, true, false, arith,
  ltb, Bool-cases, word_mod, add64, ok, ok_injective, le_of_ltb, nat_eq,
}
use mathlib.Core.Path.{sym, ◌∙◌}
use mathlib.Core.Path.{subst}
use native.Mathlib.Nat.{
  add-mul, div-le_self, mod-eq_of_lt, div-eq_of_lt-le, div-mul-le_self, lt-div-mul-add,
}
use shielder.Contract.{BatchConfig, batch_start_block, batch_end_block, batch_index}

-- The batch has a first block and an end, between which the block is.
abbrev pub Covers : BatchConfig → ℕ → ℕ → Type 0
Covers bc b block =
    (start : ℕ) × (end : ℕ) × (batch_start_block bc b ≡ ok start)
    × (batch_end_block bc b ≡ ok end)
    × (start ≤ block)
    × (block < end)

module _ (bc : BatchConfig) (b : ℕ) (later : bc.start_batch_index ≤ b)
    (fits : bc.start_block_number + (b - bc.start_batch_index) * bc.batch_span + bc.batch_span
      < word_mod) where
  abbrev first : ℕ
  first = bc.start_block_number + (b - bc.start_batch_index) * bc.batch_span

  start : batch_start_block bc b ≡ ok first
  unfolding batch_start_block
  start =
      let h : ltb b (bc.start_batch_index) ≡ false = ground arith in
      let p : (b - bc.start_batch_index) * bc.batch_span < word_mod = omega (arith, fits) in
      let q : first < word_mod = omega (arith, fits) in rw (h, mod-eq_of_lt p, mod-eq_of_lt q) refl

  end : batch_end_block bc b ≡ ok (first + bc.batch_span)
  unfolding batch_end_block
  end = rw (start, mod-eq_of_lt fits) refl

  -- The index of a block at or behind the first, as the code computes it.
  index_of :
      (block : ℕ)
      → bc.start_block_number ≤ block
      → 0 < bc.batch_span
      → batch_index bc block
        ≡ ok (add64 (bc.start_batch_index) ((block - bc.start_block_number) / bc.batch_span))
  unfolding batch_index
  index_of block h pos =
      let g : ltb block (bc.start_block_number) ≡ false = ground arith in
      let n : (bc.batch_span == 0) ≡ false = ground arith in rw (g, n) refl

  not_early :
      (block : ℕ) → ltb block (bc.start_block_number) ≡ true → ¬ (batch_index bc block ≡ ok b)
  unfolding batch_index
  not_early block early h = absurd (ground (arith, early, h))

  module _ (small : b < word_mod) (pos : 0 < bc.batch_span) (block : ℕ)
      (word : block < word_mod) where
    covered : Covers bc b block → batch_index bc block ≡ ok b
    covered (s, e, hs, he, p, q) =
        let k = b - bc.start_batch_index in
        let at : first ≡ s = ok_injective (sym start ∙ hs) in
        let until : first + bc.batch_span ≡ e = ok_injective (sym end ∙ he) in
        let from : bc.start_block_number ≤ block = omega (arith, at, p) in
        let low : k * bc.batch_span ≤ block - bc.start_block_number = omega (arith, at, p) in
        let high : block - bc.start_block_number < (k + 1) * bc.batch_span =
          omega (arith, until, q, add-mul k 1 (bc.batch_span), from) in
        let d = div-eq_of_lt-le (bc.batch_span) low high in
        let sum : bc.start_batch_index + k ≡ b = omega (arith, later) in
        index_of block from pos ∙ rw (d, sum, mod-eq_of_lt small) refl

    covers : batch_index bc block ≡ ok b → Covers bc b block
    covers h = elim (Bool-cases (ltb block (bc.start_block_number))) [
      | inl early ↦ absurd (not_early block early h)
      | inr on_time ↦
          let from : bc.start_block_number ≤ block =
            le_of_ltb block (bc.start_block_number) on_time in
          let m = block - bc.start_block_number in
          let wrapped : add64 (bc.start_batch_index) (m / bc.batch_span) ≡ b =
            ok_injective (sym (index_of block from pos) ∙ h) in
          let k : m / bc.batch_span ≡ b - bc.start_batch_index =
            omega (arith, wrapped, div-le_self m (bc.batch_span), later, word, small) in
          let low : (b - bc.start_batch_index) * bc.batch_span ≤ m =
            subst (λ j. j * bc.batch_span ≤ m) k (div-mul-le_self m (bc.batch_span)) in
          let high : m < (b - bc.start_batch_index) * bc.batch_span + bc.batch_span =
            subst (λ j. m < j * bc.batch_span + bc.batch_span) k (lt-div-mul-add pos) in
          (
            first,
            first + bc.batch_span,
            start,
            end,
            omega (arith, low, from),
            omega (arith, high, from),
          )
    ]

    -- For an active config and a batch from its first on, whose blocks stay below 2^64: the batch
    -- of a block is this one exactly if the block is at or behind the batch's first block, and
    -- before its end.
    pub batch_index_iff : (batch_index bc block ≡ ok b) ↔ Covers bc b block
    batch_index_iff = (covers, covered)
