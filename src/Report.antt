-- ===== src/Report.antt =====
-- project/shopble/services/report
pub mod Coverage
pub mod Cells
pub mod Markdown
