-- ===== src/Timeline.antt =====
-- src/features/conversation/timelineReducer.ts: one turn of a conversation, rebuilt from events.
pub mod Blocks
pub mod Reducer
pub mod Approvals
pub mod Sequence
pub mod Settled
pub mod ApprovalLaws
pub mod Identity
pub mod WellFormed
pub mod Answer
mod Examples
