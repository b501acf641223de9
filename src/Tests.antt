-- ===== src/Tests.antt =====
-- Runs of the model at concrete inputs: a debugger engine, and the components on small data.
pub mod Debuggee
pub mod Sessions
pub mod Commands
pub mod Caches
pub mod Images
pub mod Tables
pub mod Frames
pub mod Texts
pub mod Store
pub mod Metadata
pub mod Indexed
pub mod Showing
pub mod Joined
pub mod Flags
