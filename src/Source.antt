-- ===== src/Source.antt =====
-- The application's reading of the source documents: src/lib/source.
pub mod Revision
mod Tests
