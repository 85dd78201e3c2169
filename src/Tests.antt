-- ===== src/Tests.antt =====
-- Tests of the definitions on concrete inputs, and the theorems at inputs that meet their
-- hypotheses.
mod Memory
mod Wakes
mod Reports
mod Cycles
mod Upserts
mod Loops
mod Converging
mod Pooling
mod Allocations
mod Peerings
mod Placements
mod Lifecycles
mod Cables
mod Firewalls
mod Wans
