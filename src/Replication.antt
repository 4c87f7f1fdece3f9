-- ===== src/Replication.antt =====
-- distcache/replication.py.
pub mod Effects
pub mod Master
pub mod Replica
pub mod Lines
pub mod RoundTrip
pub mod Batches
pub mod Cut
pub mod CutLine
pub mod Atomic
pub mod Reconnect
pub mod Broken
pub mod Queues
pub mod Delivery
pub mod Progress
