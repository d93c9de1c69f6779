-- ===== src/Workbook.antt =====
-- The Ansible module that reconciles one Mistral workbook,
-- ansible/roles/powerops/library/powerops_mistral_workbook.py.
pub mod Document
pub mod Client
pub mod Reconcile
mod Tests
