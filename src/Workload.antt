-- ===== src/Workload.antt =====
-- bridge/workload.py: which coder an issue goes to, and the Workload manifest made for it.
-- `Config` has the parsers and the gate profile, `Capacity` the slots of the coder Agents, `Coder` the
-- choice of a coder, `Name` the deterministic names and `Build` the manifest.
pub mod Config
pub mod Capacity
pub mod Coder
pub mod Name
pub mod Build
