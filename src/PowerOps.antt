-- ===== src/PowerOps.antt =====
-- The power operations of plugins/mistral_power_actions, `class PowerOperations` in
-- src/openstack_power_actions/operations.py, method by method.
pub mod Cloud
pub mod Duration
pub mod Lookup
pub mod Observe
pub mod Services
pub mod Servers
pub mod Power
pub mod HostReturn
pub mod Fake
mod Tests
