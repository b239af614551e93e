-- ===== src/Tests.antt =====
-- Runs at concrete inputs.
pub mod Fixtures
pub mod Chain
pub mod Blocks
pub mod Votes
pub mod Configs
pub mod Keys
pub mod Epochs
pub mod Keyper
pub mod Decider
pub mod Events
pub mod Running
pub mod Sending
