-- ===== src/Examples.antt =====
-- The theorems at concrete inputs.
pub mod Sinks
pub mod Enumerators
pub mod Vectors
pub mod Values
pub mod Proxies
pub mod Calls
pub mod Servers
pub mod Lookups
pub mod Controls
pub mod Drains
pub mod Finds
