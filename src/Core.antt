-- ===== src/Core.antt =====
-- The core data structures (src/core): the tags of the fixed-point types, the locations and the
-- vdaf parameter, and the encoding of task ids.
pub mod Tag
pub mod Fixed
pub mod Types
pub mod Helpers
