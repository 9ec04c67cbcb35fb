-- ===== src/Models.antt =====
-- project/shopble/models: the rows that the service stores.
pub mod Status
pub mod Order
pub mod Evidence
