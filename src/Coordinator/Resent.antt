-- ===== src/Coordinator/Resent.antt =====
-- A request that was put stays, and is not answered twice.
use tantra.Prelude.Dict
use tantra.Prelude.Dict.{Dict}
use tantra.Coordinator.Database.{Database}
