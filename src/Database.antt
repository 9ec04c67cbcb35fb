-- ===== src/Database.antt =====
-- database/sql_txn.go and database/sqlquery
pub mod Txn
pub mod Paging
pub mod Types
