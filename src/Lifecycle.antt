-- ===== src/Lifecycle.antt =====
-- src/solution_arista_avd/service_lifecycle.py.
pub mod Schema
pub mod Events
pub mod Stages
pub mod Requests
pub mod Departures
pub mod Build
pub mod Exporter
pub mod Others
pub mod Deployed
pub mod Outage
pub mod Render
pub mod Escaped
