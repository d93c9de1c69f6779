-- ===== src/Container.antt =====
-- The Ansible module kolla_container, ansible/library/kolla_container.py, and its workers in
-- ansible/module_utils.
pub mod Systemd
pub mod Params
pub mod Image
pub mod Volumes
pub mod Healthcheck
pub mod Dimensions
pub mod Compare
pub mod Engine
pub mod Differs
pub mod Docker
pub mod Podman
pub mod Worker
pub mod Module
mod Tests
