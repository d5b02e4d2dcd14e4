-- ===== src/Parser.antt =====
-- parser/: recursive descent over the lexer's `peek` and `consume`.
pub mod Base
pub mod Expressions
pub mod Statements
pub mod Declarations
pub mod Gives
pub mod Nodes
pub mod Enough
pub mod Trees
pub mod Programs
mod Tests
