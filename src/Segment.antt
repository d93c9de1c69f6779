-- ===== src/Segment.antt =====
-- The Ansible module that reconciles one Masakari segment and its hosts,
-- ansible/roles/powerops/library/powerops_masakari_segment.py.
pub mod InstanceHa
pub mod Spec
pub mod Hosts
pub mod Reconcile
mod Tests
