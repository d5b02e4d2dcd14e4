-- ===== src/Driver.antt =====
-- driver/driver.cpp: `Driver::compile`, the parser, the analyzer and the code generator in their order.
-- The calls behind the generator, of LLVM's passes and of the object file, are left out.
pub mod Reach
pub mod Parts
pub mod Statements
pub mod Kept
pub mod Declarations
pub mod Globals
pub mod Analyzed
pub mod Compile
mod Tests
use jmm_llvm.Prelude.{ℕ}
use jmm_llvm.Common.Outcome.{Outcome, ◌>>=◌}
use jmm_llvm.Lexer.State.{Lexer}
use jmm_llvm.Parser.Declarations.{start}
use jmm_llvm.Semantic.Analyzer.{analyzer, analyze}
use jmm_llvm.Codegen.Llvm.{Llvm}
use jmm_llvm.Codegen.State.{Codegen}
use jmm_llvm.Codegen.Program.{generate}

module _ {I : Type 0} (lex : Lexer I → Outcome (Lexer I)) (llvm : Llvm) where
  -- The logger is the lexer's: the analyzer warns of an insertion without a block, and there is a block
  -- wherever it inserts into one.
  unfoldable pub compile : ℕ → Lexer I → llvm.State → Outcome (Codegen llvm)
  compile f l s = do
    (p, l') ← start lex f l
    t ← analyzer l'.logger
    ds ← analyze p t
    generate llvm ds s l'.logger
