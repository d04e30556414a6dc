-- ===== src/Tools.antt =====
-- The release tools, tools/build_release.py.
pub mod Order
pub mod Lines
pub mod Dict
pub mod Archive
pub mod Checksums
pub mod Publish
pub mod Requirements
