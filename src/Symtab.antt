-- ===== src/Symtab.antt =====
-- common/symtab.h: `SymbolTable`. Each hash map is an association list with at most one entry for a
-- key; the stack of blocks is a list, its top first. The laws are in Symtab.Lookup.
pub mod Lookup
mod Tests
use jmm_llvm.Prelude.{
  ℕ, suc, Bool, true, false, Option, none, some, List, [], ◌∷◌, Bytes, bytes_eq, length,
  if◌then◌else◌,
}
use jmm_llvm.Common.Symbol.{Symbol}
use jmm_llvm.Common.Outcome.{Outcome, ok, ◌>>=◌, Logger, warning}

-- `enum class Scope`
pub data Scope : Type 0 where
  rts global func block : Scope

abbrev pub Map : Type 0
Map = List (Bytes × Symbol)

-- `unordered_map::find`
unfoldable pub find : Bytes → Map → Option Symbol
find name [] = none
find name ((k, s) ∷ m) = if bytes_eq k name then some s else find name m

-- `unordered_map::insert`: an entry that is there stays as it is, and the result says so.
unfoldable pub insert_map : Bytes → Symbol → Map → Map × Bool
insert_map name s m = elim (find name m) [ some _ ↦ (m, false) | none ↦ ((name, s) ∷ m, true) ]

-- `made` counts the symbols that were made: the address of the next one.
pub record SymbolTable : Type 0 where
  pub made : ℕ
  pub logger : Logger
  pub m_rts : Map
  pub m_global : Map
  pub m_func : Map
  pub m_blocks : List Map

abbrev pub new_table : Logger → SymbolTable
new_table l = record { made = 0; logger = l; m_rts = []; m_global = []; m_func = []; m_blocks = [] }

-- `std::make_shared<Symbol>(…)`
abbrev pub make_symbol : (ℕ → Symbol) → SymbolTable → Symbol × SymbolTable
make_symbol new t = (new t.made, record t { made = suc t.made })

insert_block : List Map → Bytes → Symbol → SymbolTable → Outcome (SymbolTable × Bool)
insert_block [] name s t = do l ← warning t.logger; ok (record t { logger = l }, false)
insert_block (b ∷ bs) name s t =
    let (b', done) = insert_map name s b in ok (record t { m_blocks = b' ∷ bs }, done)

unfoldable pub insert : Scope → Bytes → Symbol → SymbolTable → Outcome (SymbolTable × Bool)
unfolding insert_block
insert Scope.global name s t =
    let (m, done) = insert_map name s t.m_global in ok (record t { m_global = m }, done)
insert Scope.func name s t =
    let (m, done) = insert_map name s t.m_func in ok (record t { m_func = m }, done)
insert Scope.rts name s t =
    let (m, done) = insert_map name s t.m_rts in ok (record t { m_rts = m }, done)
insert Scope.block name s t = insert_block t.m_blocks name s t

-- The loop over a copy of the stack.
unfoldable pub query_blocks : Bytes → List Map → Option Symbol
query_blocks name [] = none
query_blocks name (b ∷ bs) = elim (find name b) [ some s ↦ some s | none ↦ query_blocks name bs ]

-- `query(scope, name)`
unfoldable pub query_scope : Scope → Bytes → SymbolTable → Option Symbol
query_scope Scope.global name t = find name t.m_global
query_scope Scope.rts name t = find name t.m_rts
query_scope Scope.func name t = find name t.m_func
query_scope Scope.block name t = query_blocks name t.m_blocks

or_else : Scope → Option Symbol → Option (Scope × Symbol) → Option (Scope × Symbol)
or_else scope (some s) rest = some (scope, s)
or_else scope none rest = rest

-- `query(name)`: the blocks, the formals, the globals and the runtime's functions, in this order.
unfoldable pub query : Bytes → SymbolTable → Option (Scope × Symbol)
unfolding or_else
query name t = or_else Scope.block (query_scope Scope.block name t) (
    or_else Scope.func (query_scope Scope.func name t) (
      or_else Scope.global (query_scope Scope.global name t)
        (or_else Scope.rts (query_scope Scope.rts name t) none)))

unfoldable pub enter_block : SymbolTable → SymbolTable
enter_block t = record t { m_blocks = [] ∷ t.m_blocks }

unfoldable pub exit_func : SymbolTable → SymbolTable
exit_func t = record t { m_func = []; m_blocks = [] }

-- `pop` of an empty stack is undefined behaviour.
pop_block : List Map → SymbolTable → Outcome SymbolTable
pop_block [] t = Outcome.fault
pop_block (_ ∷ bs) t = ok (record t { m_blocks = bs })

unfoldable pub exit_block : SymbolTable → Outcome SymbolTable
unfolding pop_block
exit_block t = pop_block t.m_blocks t

unfoldable pub current_scope : SymbolTable → ℕ
current_scope t = length t.m_blocks
