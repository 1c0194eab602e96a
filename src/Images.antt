-- ===== src/Images.antt =====
-- The image package (pkg/image).
pub mod Cache
mod Tests
