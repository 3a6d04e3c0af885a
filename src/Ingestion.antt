-- ===== src/Ingestion.antt =====
-- Package internal/ingestion: the listener for datagrams, and the one for connections.
pub mod Udp
pub mod Reading
pub mod Receiving
pub mod Datagrams
pub mod Tcp
pub mod Connections
pub mod Rates
mod Tests
