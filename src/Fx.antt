-- ===== src/Fx.antt =====
-- The actions that a keyper decides on (keyper/fx/actions.go). The description of a message, which
-- only the log shows, is left out.
pub mod Pending
pub mod Run
pub mod Send
use shielder.Base.{ℕ, Bool, false, List, ltb, length, add64, mul64}
use shielder.Shmsg.{Bytes, Message}
use shielder.Curve.{Curve}
use shielder.Contract.{Authorization}
use shielder.MainChain.{MainChain}

pub record ExecuteCipherBatch : Type 0 where
  pub batch_index : ℕ
  pub cipher_batch_hash : Bytes
  pub transactions : List Bytes
  pub keyper_index : ℕ
  pub transaction_gas_limit : ℕ

pub record ExecutePlainBatch : Type 0 where
  pub batch_index : ℕ
  pub transactions : List Bytes
  pub transaction_gas_limit : ℕ

pub record Accuse : Type 0 where
  pub half_step : ℕ
  pub keyper_index : ℕ

pub record EonKeyBroadcast (c : Curve) : Type 0 where
  pub keyper_index : ℕ
  pub start_batch_index : ℕ
  pub eon_public_key : c.G2

pub data Action (c : Curve) : Type 0 where
  send_shielder_message : Message → Action c
  execute_cipher_batch : ExecuteCipherBatch → Action c
  execute_plain_batch : ExecutePlainBatch → Action c
  skip_cipher_batch : ℕ → Action c
  accuse : Accuse → Action c
  appeal : Authorization → Action c
  eon_key_broadcast : EonKeyBroadcast c → Action c

-- `executeCipherBatchBaseLimit`, and the same for a plain batch.
abbrev execute_base_limit : ℕ
execute_base_limit = 250000

unfoldable pub cipher_gas_limit : ExecuteCipherBatch → ℕ
cipher_gas_limit a =
    add64 execute_base_limit (mul64 (length (a.transactions)) (a.transaction_gas_limit))

unfoldable pub plain_gas_limit : ExecutePlainBatch → ℕ
plain_gas_limit a =
    add64 execute_base_limit (mul64 (length (a.transactions)) (a.transaction_gas_limit))

-- The methods `IsExpired`.
unfoldable pub is_expired : {c : Curve} → MainChain → Action c → Bool
is_expired m (send_shielder_message msg) = false
is_expired m (execute_cipher_batch a) = ltb (mul64 2 (a.batch_index)) (m.num_execution_half_steps)
is_expired m (execute_plain_batch a) =
    ltb (add64 (mul64 2 (a.batch_index)) 1) (m.num_execution_half_steps)
is_expired m (skip_cipher_batch batch_index) =
    ltb (mul64 2 batch_index) (m.num_execution_half_steps)
is_expired m (accuse a) = false
is_expired m (appeal a) = false
is_expired m (eon_key_broadcast a) = false
