-- ===== src/PrFix.antt =====
-- bridge/prfix.py: the pass over the pull requests that Dispatch queued to be fixed.
pub mod Item
pub mod Mergeable
pub mod Manifest
pub mod Drain
pub mod Calls
pub mod Settle
