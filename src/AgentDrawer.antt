-- ===== src/AgentDrawer.antt =====
-- The agent drawer of a channel: src/features/collaboration/agentDrawerStore.ts.
pub mod Store
pub mod Phases
pub mod Bindings
pub mod Creation
pub mod Keys
pub mod Cancelled
pub mod Examples
