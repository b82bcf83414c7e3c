-- ===== src/Multiplex.antt =====
-- The crate nexigon-multiplex: many channels over one connection.
pub mod Frames
pub mod Limits
pub mod Shared
pub mod Channel
pub mod Rate
pub mod Connection
