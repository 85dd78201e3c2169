-- ===== src/Pools.antt =====
-- src/solution_arista_avd/pool_roles.py: which prefixes back which pool.
pub mod Prefixes
pub mod Roles
pub mod Resolved
pub mod Children
pub mod Allocation
