-- ===== src/Checks.antt =====
-- The checks of a proposed change: each reads what the branch holds and reports findings.
pub mod Allocation
pub mod Peering
pub mod Wan
