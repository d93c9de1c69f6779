-- ===== src/Ironic.antt =====
-- The Ansible module that reconciles one power-only Ironic node and its ports,
-- ansible/roles/powerops/library/powerops_ironic_node.py.
pub mod Baremetal
pub mod Spec
pub mod Ports
pub mod Node
mod Tests
