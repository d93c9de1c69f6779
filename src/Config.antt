-- ===== src/Config.antt =====
-- The action plugins that merge configuration files, ansible/action_plugins.
pub mod Ini
pub mod Nested
mod Tests
