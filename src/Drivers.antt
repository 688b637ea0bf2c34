-- ===== src/Drivers.antt =====
-- drivers/: the database drivers that the daemon pulls from. (drivers/rest has its own tree, Rest.)
pub mod Order
pub mod Postgres
pub mod ClickHouse
