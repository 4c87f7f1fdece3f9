-- ===== src/Server/Recovery.antt =====
-- A replica whose connection broke, and that connects again.
use sd_03_distributed_cache.Clock.{Clock}
use sd_03_distributed_cache.Replication.Replica.{Replica}
