-- ===== src/Ttg.antt =====
-- The TTG implementation (ttg-parsec/).
pub mod Key
pub mod Tree
mod Examples
