-- ===== src/Text.antt =====
-- src/job/string.cxx, the string utilities that every other part uses.
pub mod Search
pub mod Split
pub mod Replace
pub mod Trim
pub mod Sets
