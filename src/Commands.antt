-- ===== src/Commands.antt =====
-- crates/apps/nexigon-agent/src/handlers.rs: the bounds of the commands that the agent runs for its hub.
pub mod Json
pub mod Instance
pub mod Schema
pub mod Output
mod Examples
