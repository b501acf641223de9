-- ===== src/Monitor.antt =====
-- comon/comonitor.h, comonitor.cpp and comonitor_com_breakpoints.cpp: the class `comonitor`.
pub mod Types
pub mod Monad
pub mod Breakpoints
pub mod Links
pub mod Vtables
pub mod Exports
pub mod Handlers
pub mod Modules
pub mod Soundness
pub mod Effects
pub mod Listing
pub mod Hits
pub mod Registration
pub mod Loading
pub mod Saving
pub mod Pausing
