-- ===== src/Observe/Lookup.antt =====
-- The lookup of a keyper by batch index, against the one of the app.
use shielder.Base.{
  ◌≤◌, ◌<◌, ◌≡◌, ◌∷◌, ◌++◌, ℕ, suc, refl, ap, Bool, true, false, some, List, [], arith, leb, length,
  length-append, err, drop,
}
use shielder.Config.{BatchConfig}
use shielder.Panic.{index_out_of_range}
use shielder.App.State.{find_last, get_config}
use shielder.Observe.{find_upwards, find_batch_config_by_batch_index}

find_last-append {ℓ} :
    {A : Type ℓ} (p : A → Bool) (cs : List A) (c : A)
    → p c ≡ true
    → find_last p (cs ++ c ∷ []) ≡ some c
unfolding find_last
find_last-append p [] c h = rw h refl
find_last-append p (d ∷ cs) c h = rw (find_last-append p cs c h) refl

drop_before_last {ℓ} : {A : Type ℓ} (cs : List A) (c : A) → drop (length cs) (cs ++ c ∷ []) ≡ c ∷ []
drop_before_last [] c = refl
drop_before_last (d ∷ cs) c = drop_before_last cs c

find_last_config :
    (cs : List BatchConfig) (c : BatchConfig) (b : ℕ)
    → find_batch_config_by_batch_index (cs ++ c ∷ []) b ≡ find_upwards (c ∷ []) b
unfolding find_batch_config_by_batch_index
find_last_config [] c b = refl
find_last_config (d ∷ cs) c b =
    let len : length (cs ++ c ∷ []) ≡ suc (length cs) = omega (arith, length-append cs (c ∷ [])) in
    rw len (ap (λ l. find_upwards l b) (drop_before_last cs c))

-- On a list of configs that ends in some config, a keyper's lookup of a batch agrees with the
-- app's if the last config starts by that batch; if the last config starts later, the keyper's
-- lookup panics with an index out of range.
pub find_batch_config_by_batch_index_lem :
    (cs : List BatchConfig) (c : BatchConfig) (b : ℕ)
    → (c.start_batch_index ≤ b
        → find_batch_config_by_batch_index (cs ++ c ∷ []) b ≡ get_config (cs ++ c ∷ []) b)
      × (b < c.start_batch_index
          → find_batch_config_by_batch_index (cs ++ c ∷ []) b ≡ err index_out_of_range)
unfolding find_upwards get_config
find_batch_config_by_batch_index_lem cs c b = (
  λ h.
      let starts : leb c.start_batch_index b ≡ true = ground (arith, h) in
      let found = find_last-append (λ (d : BatchConfig). leb d.start_batch_index b) cs c starts in
      rw (find_last_config cs c b) (rw found (rw starts refl)),
  λ h.
      let later : leb c.start_batch_index b ≡ false = ground (arith, h) in
      rw (find_last_config cs c b) (rw later refl),
)
