-- ===== src/Agent.antt =====
-- The conversation agent: app/agent.
pub mod State
pub mod Budget
pub mod Fields
pub mod Reply
pub mod World
pub mod Booking
pub mod Updates
pub mod Nodes
pub mod Graph
pub mod Tenants
pub mod Turn
mod Tests
