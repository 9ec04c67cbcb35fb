-- ===== src/Api.antt =====
-- project/shopble/api: the responses, the data that they carry, and the handlers of v1.
pub mod Errors
pub mod Model
pub mod Queries
pub mod Orders
pub mod Evidence
