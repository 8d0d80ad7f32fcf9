-- ===== src/Acp.antt =====
-- electron/conversation/acp: what an agent sends in a session, and what becomes of it.
pub mod Updates
pub mod Projector
pub mod Replay
pub mod Options
pub mod Configuration
pub mod Examples
