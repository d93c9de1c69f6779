-- ===== src/Cli.antt =====
-- The validation of the configuration in tools/powerops_cli.py.
pub mod Inventory
pub mod Validate
pub mod Publish
mod Tests
