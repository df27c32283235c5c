-- ===== src/Guard/Again.antt =====
-- crates/cypher-guard: the sanitizer on its own output.
pub mod Cut
pub mod Closes
pub mod Scan
pub mod Range
pub mod Chain
pub mod State
pub mod Kept
pub mod Relex
pub mod Alike
pub mod Calls
pub mod Paths
pub mod Policy
pub mod Limit
pub mod Fixed
pub mod Whole
