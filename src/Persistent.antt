-- ===== src/Persistent.antt =====
-- Histories that can be read at any past point of any run (src/utils/fully_persistent_array.h).
pub mod Walk
pub mod Array
pub mod CacheArray
