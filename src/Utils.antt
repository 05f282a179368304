-- ===== src/Utils.antt =====
-- crates/utils/src.
pub mod Math
