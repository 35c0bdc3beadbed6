-- ===== src/Flower.antt =====
-- The flow metadata of the flower application (src/flower/metadata.c).
pub mod Ring
pub mod Mask
pub mod Stats
pub mod Metadata
