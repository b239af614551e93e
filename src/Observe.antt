-- ===== src/Observe.antt =====
-- The lookups of a keyper in the configs that it has observed (keyper/observe/shutter.go).
pub mod Lookup
pub mod Shielder
pub mod Signatures
pub mod Eons
pub mod Applied
pub mod Fetch
use shielder.Base.{
  ◌∷◌, ◌==◌, if◌then◌else◌, ℕ, List, [], leb, length, Result, ok, err, drop, nat_eq,
}
use shielder.Config.{BatchConfig, empty_config}
use shielder.Panic.{Panic, index_out_of_range}

pub data LookupError : Type 0 where
  config_not_found : LookupError

unfoldable pub find_batch_config_by_config_index :
    List BatchConfig → ℕ → Result LookupError BatchConfig
find_batch_config_by_config_index [] config_index = err config_not_found
find_batch_config_by_config_index (bc ∷ rest) config_index =
    if bc.config_index == config_index
    then ok bc
    else find_batch_config_by_config_index rest config_index

-- The loop of `FindBatchConfigByBatchIndex`, whose `i` only grows: over the configs from `i - 1` on.
find_upwards : List BatchConfig → ℕ → Result Panic BatchConfig
find_upwards [] batch_index = err index_out_of_range
find_upwards (bc ∷ rest) batch_index =
    if leb bc.start_batch_index batch_index then ok bc else find_upwards rest batch_index

unfoldable pub find_batch_config_by_batch_index : List BatchConfig → ℕ → Result Panic BatchConfig
unfolding find_upwards
find_batch_config_by_batch_index [] batch_index = ok empty_config
find_batch_config_by_batch_index (bc ∷ rest) batch_index =
    find_upwards (drop (length rest) (bc ∷ rest)) batch_index
