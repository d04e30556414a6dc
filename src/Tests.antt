-- ===== src/Tests.antt =====
-- The theorems at concrete inputs, over a small platform.
pub mod Toy
pub mod Admissions
pub mod Documents
pub mod Adapters
pub mod Sessions
pub mod Wire
pub mod Gates
pub mod Rooms
pub mod Dual
pub mod Fleets
pub mod Releases
pub mod Scans
