-- ===== src/Wire/Exchange/Skip.antt =====
-- src/postgres.go, handleExtendedQuery: what an exchange does with the messages behind an error.
use bemi_db.Prelude.{◌≡◌, false}
use bemi_db.Wire.Engine.{Engine}
use bemi_db.Wire.Message.{ClientMessage}
use bemi_db.Wire.Exchange.{is_sync, is_terminate}

-- A message that an exchange skips after an error.
abbrev pub IsSkipped : ClientMessage → Type 0
IsSkipped m = (is_sync m ≡ false) × (is_terminate m ≡ false)
