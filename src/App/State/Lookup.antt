-- ===== src/App/State/Lookup.antt =====
-- What the lookups of configs return, and that adding a config keeps the invariant.
use shielder.Base.{
  ◌≤◌, ◌≡◌, ◌∷◌, ℕ, ap, inl, inr, false, some, List, [], arith, leb, Option-cases, All, ok, All-map,
}
use shielder.Config.{BatchConfig, config_eq}
use shielder.App.State.Inv.{IsOrdered, find_last-some, find_last-none}
use shielder.App.State.{find_last, get_config}

-- A config is covered by the one that is looked up, if it starts by the batch index.
abbrev IsCovered : ℕ → BatchConfig → BatchConfig → Type 0
IsCovered b c d = d.start_batch_index ≤ b → d.config_index ≤ c.config_index

covered :
    (b : ℕ) (cs : List BatchConfig) (c : BatchConfig)
    → IsOrdered cs
    → find_last (λ (d : BatchConfig). leb d.start_batch_index b) cs ≡ some c
    → All (IsCovered b c) cs
unfolding find_last
covered b [] c o h = tt
covered b (d ∷ cs) c o h =
    elim (Option-cases (find_last (λ (d : BatchConfig). leb d.start_batch_index b) cs)) [
      | inr (e, p) ↦
          let same : e ≡ c = ground (arith, p, h) in
          (
            λ _.
                let later = (find_last-some _ _ cs e p o.0).0 in
                omega (arith, later.1, ap (λ (f : BatchConfig). f.config_index) same),
            covered b cs c o.1 (rw (← same) p),
          )
      | inl p ↦ (
        λ starts. ground (arith, p, h, starts),
        All-map {Q = IsCovered b c}
            (λ (f : BatchConfig) (late : leb f.start_batch_index b ≡ false) starts.
              absurd (ground (arith, late, starts)))
            cs (find_last-none _ cs p),
      )
    ]

-- In a list of configs ordered by batch index and strictly by config index, the config that is
-- looked up for a batch starts by that batch, and every config that starts by that batch has a
-- config index no greater.
get_config_lem :
    (cs : List BatchConfig) (b : ℕ) (c : BatchConfig)
    → IsOrdered cs
    → get_config cs b ≡ ok c
    → (c.start_batch_index ≤ b) × All (IsCovered b c) cs
unfolding get_config
get_config_lem cs b c o h =
    elim (Option-cases (find_last (λ (d : BatchConfig). leb d.start_batch_index b) cs)) [
      | inl e ↦ absurd (ground (arith, e, h))
      | inr (d, e) ↦
          let same : d ≡ c = ground (arith, e, h) in
          let e' = rw same at e in
          (
            ground (arith, (find_last-some {0, 0} (λ _. Unit {0}) _ cs c e' (all_unit cs)).1),
            covered b cs c o e',
          )
    ]
  where
    all_unit : (xs : List BatchConfig) → All (λ _. Unit {0}) xs
    all_unit [] = tt
    all_unit (x ∷ xs) = (tt, all_unit xs)
