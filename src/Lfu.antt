-- ===== src/Lfu.antt =====
-- comon/lfu_cache.h: the class template `lfu_cache`.
pub mod Freqs
pub mod Cache
pub mod Invariant
pub mod Spec
pub mod Run
