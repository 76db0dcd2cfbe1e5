-- ===== src/Datacenter.antt =====
-- datacenter/: the reads of databases, of an inventory and of metrics.
pub mod Wire
pub mod Inventory
pub mod Redis
pub mod Results
