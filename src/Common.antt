-- ===== src/Common.antt =====
-- common/: the data that all phases share.
pub mod Token
pub mod Types
pub mod Outcome
pub mod Symbol
pub mod Ast
pub mod Print
pub mod Void
pub mod Plain
