-- ===== src/Tools.antt =====
-- tools/: the text tools.
pub mod Text
