-- ===== src/App.antt =====
-- The shuttermint application (app/): its state, its transactions and its blocks.
pub mod Nonces
pub mod CheckTx
pub mod Voting
pub mod Dkg
pub mod Messages
pub mod Powermap
pub mod State
pub mod Deliver
pub mod Transactions
pub mod Blocks
pub mod Chain
