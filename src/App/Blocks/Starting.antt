-- ===== src/App/Blocks/Starting.antt =====
-- When a config starts, and whose votes start it.
use shielder.App.State.{App}
