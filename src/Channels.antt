-- ===== src/Channels.antt =====
-- The channels and messages that the renderer holds: src/features/channels/projection.ts.
pub mod Projection
pub mod Bounds
pub mod Removal
pub mod Examples
