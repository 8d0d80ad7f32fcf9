-- ===== src/ToolBroker.antt =====
-- electron/conversation/toolBroker.ts: host tools that an agent's runtime may call.
pub mod Inspection
pub mod InspectionLaws
pub mod Definitions
pub mod Broker
pub mod Invariant
pub mod Steps
pub mod Calls
pub mod Shutdown
pub mod Results
pub mod Compiled
pub mod Outcomes
pub mod Admission
pub mod Launching
pub mod Examples
