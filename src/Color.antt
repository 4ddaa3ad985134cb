-- ===== src/Color.antt =====
-- The color decisions of crates/presslint-color/src.
pub mod Policy
pub mod DeviceLink
pub mod Spot
pub mod Overprint
pub mod OutputIntent
pub mod Plan
mod Tests
