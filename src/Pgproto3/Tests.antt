-- ===== src/Pgproto3/Tests.antt =====
-- Runs of the wire protocol on concrete messages, and the theorems at them.
pub mod Sources
pub mod Messages
pub mod Streams
pub mod Connections
