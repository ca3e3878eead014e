-- ===== src/Pgproto3/Session.antt =====
-- The two ends of a connection joined: what one end sends, the other receives.
pub mod Requests
pub mod Responses
