-- ===== src/Firewall.antt =====
-- The firewall access controller, lab/k8s/access/fw-controller/controller.py.
pub mod Schema
pub mod Replies
pub mod Commands
pub mod Driver
pub mod Pass
pub mod Ends
pub mod Modes
pub mod Sessions
pub mod Reaches
pub mod Listed
pub mod Managed
pub mod Deletes
pub mod Blocks
pub mod Course
pub mod Spared
pub mod Guarded
pub mod Finalized
pub mod Pruned
pub mod Zones
pub mod Ready
pub mod Revoked
pub mod Numbers
