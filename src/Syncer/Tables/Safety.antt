-- ===== src/Syncer/Tables/Safety.antt =====
-- The connections of a synchronisation stay usable from table to table.
use bemi_db.Prelude.{nat_eq}
use bemi_db.Syncer.Connections.{Log}
use bemi_db.Syncer.Retry.Holding.{IsReady}
use bemi_db.Syncer.Tables.{Connections}

abbrev AreReady : Connections → Log → Type 0
AreReady c log = IsReady c.structure c.copy log
