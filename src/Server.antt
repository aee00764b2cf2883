-- ===== src/Server.antt =====
-- links/server.py: the limit on the rate of requests, and the update of a village's policy.
pub mod RateLimit
pub mod Token
pub mod Update
pub mod Reads
