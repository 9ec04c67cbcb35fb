-- ===== src/Watcher.antt =====
-- project/shopble/services/watcher
pub mod Matcher
pub mod Database
pub mod Process
pub mod Chain
pub mod Poll
pub mod Ledger
