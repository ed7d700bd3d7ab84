-- ===== src/Retry.antt =====
-- bridge/retry.py: the pass over the Failed Workloads. `Manifest` reads a Workload's counters and its
-- item, `Signals` reads the tasks' results, `Hooks` has the callables and the settings of the pass,
-- `Parking` and `Giveup` the branches that park or escalate an issue, and `Pass` the retry and the loop.
pub mod Manifest
pub mod Signals
pub mod Hooks
pub mod Parking
pub mod Giveup
pub mod Pass
