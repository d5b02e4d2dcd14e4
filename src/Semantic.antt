-- ===== src/Semantic.antt =====
-- semanal/: the three passes over the syntax tree and the analyzer that runs them.
pub mod Rules
pub mod Breaks
pub mod Shape
pub mod Program
pub mod Globals
pub mod Functions
pub mod Types
pub mod Analyzer
mod Tests
