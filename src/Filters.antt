-- ===== src/Filters.antt =====
-- The Jinja filters on services, cells, database hosts and addresses: kolla_ansible/filters.py,
-- nova_filters.py, fluentd_filters.py, database_shards.py, kolla_address.py, put_address_in_context.py
-- and kolla_url.py.
pub mod Address
pub mod Cells
pub mod Fluentd
pub mod Services
pub mod Shards
mod Tests
