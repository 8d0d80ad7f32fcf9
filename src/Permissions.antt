-- ===== src/Permissions.antt =====
-- electron/conversation/acp/permissions.ts: the permissions that an ACP agent asks for.
pub mod Presentation
pub mod Coordinator
pub mod Offers
pub mod Answers
pub mod Invariant
mod Examples
