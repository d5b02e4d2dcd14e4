-- ===== src/Symtab/Tests.antt =====
-- A small table for the lookup's theorems.
use jmm_llvm.Prelude.{true, some, [], ◌∷◌, codes, bytes_eq, ◌≡◌, refl}
use jmm_llvm.Common.Types.{VType}
use jmm_llvm.Common.Symbol.{Symbol, var_symbol, func_symbol}
use jmm_llvm.Common.Outcome.{ok}
use jmm_llvm.Symtab.{Scope, SymbolTable, insert, find, insert_map, enter_block, exit_block}
use jmm_llvm.Symtab.Lookup.{
  environment, binding, query-environment, query-insert, exit_block-insert,
}

abbrev outer : Symbol
outer = var_symbol VType.int 1 10

abbrev inner : Symbol
inner = var_symbol VType.bool 4 11

-- `x` is a global and a formal, `y` is in the outer of two blocks.
abbrev nested : SymbolTable
nested = record {
  made = 20;
  logger = record { warnings = 0 };
  m_rts = (codes "halt", func_symbol VType.void [] 0 0) ∷ [];
  m_global = (codes "x", outer) ∷ [];
  m_func = (codes "x", var_symbol VType.str 2 12) ∷ [];
  m_blocks = [] ∷ ((codes "y", outer) ∷ []) ∷ [];
}

query-environment_example : binding nested (codes "x") ≡ find (codes "x") (environment nested)
query-environment_example = query-environment (codes "x") nested

abbrev shadowed : SymbolTable
shadowed = record nested { m_blocks = ((codes "y", inner) ∷ []) ∷ ((codes "y", outer) ∷ []) ∷ [] }

inserted : insert Scope.block (codes "y") inner nested ≡ ok (shadowed, true)
unfolding insert insert_map find bytes_eq
inserted = refl

query-insert_example : binding shadowed (codes "y") ≡ some inner
unfolding bytes_eq
query-insert_example = query-insert (codes "y") (codes "y") inner nested inserted

abbrev entered : SymbolTable
entered = record nested { m_blocks = ((codes "y", inner) ∷ []) ∷ nested.m_blocks }

inserted_inside : insert Scope.block (codes "y") inner (enter_block nested) ≡ ok (entered, true)
unfolding insert insert_map find bytes_eq enter_block
inserted_inside = refl

exit_block-insert_example : exit_block entered ≡ ok nested
exit_block-insert_example = exit_block-insert (codes "y") inner nested inserted_inside
