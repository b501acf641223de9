-- ===== src/Cometa.antt =====
-- comon/cometa.h, comon/cometa.cpp and comon/cometa_helpers.cpp: the metadata of COM types.
pub mod Types
pub mod Registry
pub mod Versions
pub mod TypeLib
pub mod Database
pub mod Writing
pub mod Indexing
pub mod Queries
pub mod Setup
pub mod Index
