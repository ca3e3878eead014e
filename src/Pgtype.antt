-- ===== src/Pgtype.antt =====
-- pgtype: the codecs of the server's types.
pub mod Integers
pub mod Plan
pub mod Int
pub mod Sizes
pub mod Range
pub mod Array
mod Tests
mod ContainerTests
