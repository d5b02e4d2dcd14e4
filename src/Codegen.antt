-- ===== src/Codegen.antt =====
-- codegen/: the visitor that builds the module of a checked tree.
pub mod Llvm
pub mod State
pub mod Expressions
pub mod Statements
pub mod Functions
pub mod Globals
pub mod Runtime
pub mod Program
pub mod Laws
pub mod Scoped
pub mod Ready
pub mod Tests
