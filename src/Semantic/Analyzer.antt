-- ===== src/Semantic/Analyzer.antt =====
-- semanal/analyzer: `SemanticAnalyzer`, its table of the runtime's functions and the three passes.
pub mod Sound
use jmm_llvm.Prelude.{[], ◌∷◌, codes}
use jmm_llvm.Common.Types.{VType}
use jmm_llvm.Common.Outcome.{Outcome, ok, ◌>>=◌, Logger}
use jmm_llvm.Common.Symbol.{func_symbol}
use jmm_llvm.Common.Ast.{Program}
use jmm_llvm.Symtab.{Scope, Map, SymbolTable, new_table, insert}
use jmm_llvm.Semantic.Globals
use jmm_llvm.Semantic.Functions
use jmm_llvm.Semantic.Types

abbrev rts_functions : Map
rts_functions =
    (codes "getchar", func_symbol VType.int [] 0 0)
    ∷ (codes "halt", func_symbol VType.void [] 0 1)
    ∷ (codes "printb", func_symbol VType.void (VType.bool ∷ []) 0 2)
    ∷ (codes "printc", func_symbol VType.void (VType.int ∷ []) 0 3)
    ∷ (codes "printi", func_symbol VType.void (VType.int ∷ []) 0 4)
    ∷ (codes "prints", func_symbol VType.void (VType.str ∷ []) 0 5)
    ∷ []

-- The constructor's loop.
unfoldable insert_rts : Map → SymbolTable → Outcome SymbolTable
insert_rts [] t = ok t
insert_rts ((name, s) ∷ fs) t = do (t', _) ← insert Scope.rts name s t; insert_rts fs t'

-- The table that the constructor leaves. The order of the insertions does not matter: the names differ.
unfoldable pub analyzer : Logger → Outcome SymbolTable
unfolding insert_rts
analyzer l = insert_rts rts_functions (record (new_table l) { made = 6 })

-- `analyze`: the tree with its symbols set, if no pass ends the process.
unfoldable pub analyze : Program → SymbolTable → Outcome Program
analyze p t = do
  (p₁, t₁) ← Globals.visit p t
  (p₂, v) ← Functions.visit p₁ (Functions.new_visitor t₁)
  _ ← Types.visit p₂ Types.new_visitor
  ok p₂
