-- ===== src/Glib.antt =====
-- glib/gsec and glib/gfile
pub mod Secret
pub mod Document
pub mod Media
pub mod Auth
pub mod Queue
