-- ===== src/Tests.antt =====
-- Concrete runs, and the theorems at concrete inputs.
mod Clocks
mod Calls
mod Streams
mod LruTests
mod ProtocolTests
mod ReplicationTests
mod RingTests
mod ServerTests
mod ConnectionTests
mod NodeTests
mod ServeTests
mod DiscoveryTests
mod ClientTests
