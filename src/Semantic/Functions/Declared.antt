-- ===== src/Semantic/Functions/Declared.antt =====
-- Tables in which every function that may be called has its parameters recorded.
use jmm_llvm.Prelude.{refl, ℕ, List}
use jmm_llvm.Common.Types.{VType}
use jmm_llvm.Symtab.Lookup.{insert_map_free, insert_map_taken}
use jmm_llvm.Symtab.{insert_map}
use jmm_llvm.Common.Symbol.{var_symbol, func_symbol, main_symbol}
use jmm_llvm.Prelude.{
  subst, inr, inl, Option-cases, Bool-cases, some, ◌≡◌, Bytes, List, [], ◌∷◌, arith, bytes_eq,
}
use jmm_llvm.Common.Symbol.{Symbol}
use jmm_llvm.Symtab.{Map, SymbolTable, find, query, query_scope, query_blocks}
use jmm_llvm.Symtab.Lookup.{binding}
use jmm_llvm.Semantic.Functions.Names.{IsDeclared}

-- Every symbol of a table is declared.
abbrev pub AllDeclared : Map → Type 0
AllDeclared [] = Unit {0}
AllDeclared ((k, s) ∷ m) = IsDeclared s × AllDeclared m

abbrev pub AllBlocks : List Map → Type 0
AllBlocks [] = Unit {0}
AllBlocks (b ∷ bs) = AllDeclared b × AllBlocks bs

pub record WellDeclared (t : SymbolTable) : Type 0 where
  pub rts : AllDeclared t.m_rts
  pub globals : AllDeclared t.m_global
  pub formals : AllDeclared t.m_func
  pub blocks : AllBlocks t.m_blocks

find-IsDeclared :
    (x : Bytes) (m : Map) {s : Symbol} → AllDeclared m → find x m ≡ some s → IsDeclared s
unfolding find
find-IsDeclared x [] d e = cc
find-IsDeclared x ((k, r) ∷ m) (d, ds) e = elim (Bool-cases (bytes_eq k x)) [
  | inl same ↦ subst IsDeclared (ground arith) d
  | inr differ ↦ find-IsDeclared x m ds (ground arith)
]

query_blocks-IsDeclared :
    (x : Bytes) (bs : List Map) {s : Symbol}
    → AllBlocks bs
    → query_blocks x bs ≡ some s
    → IsDeclared s
unfolding query_blocks
query_blocks-IsDeclared x [] d e = cc
query_blocks-IsDeclared x (b ∷ bs) (d, ds) e = elim (Option-cases (find x b)) [
  | inl miss ↦ query_blocks-IsDeclared x bs ds (ground arith)
  | inr (r, hit) ↦ subst IsDeclared (ground arith) (find-IsDeclared x b d hit)
]

pub binding-IsDeclared :
    {t : SymbolTable}
    → WellDeclared t
    → (x : Bytes) (s : Symbol) → binding t x ≡ some s
    → IsDeclared s
unfolding query query_scope
binding-IsDeclared {t} w x s e = elim (Option-cases (query_blocks x t.m_blocks)) [
  | inr (r, hit) ↦
      subst IsDeclared (ground arith) (query_blocks-IsDeclared x t.m_blocks w.blocks hit)
  | inl no_block ↦ elim (Option-cases (find x t.m_func)) [
    | inr (r, hit) ↦ subst IsDeclared (ground arith) (find-IsDeclared x t.m_func w.formals hit)
    | inl no_formal ↦ elim (Option-cases (find x t.m_global)) [
      | inr (r, hit) ↦ subst IsDeclared (ground arith) (find-IsDeclared x t.m_global w.globals hit)
      | inl no_global ↦ find-IsDeclared x t.m_rts w.rts (ground arith)
    ]
  ]
]

-- Inserting a declared symbol keeps every symbol declared.
pub insert_map-AllDeclared :
    (x : Bytes) (s : Symbol) (m : Map)
    → IsDeclared s
    → AllDeclared m
    → AllDeclared (insert_map x s m).0
insert_map-AllDeclared x s m d ds = elim (Option-cases (find x m)) [
  | inl free ↦ rw (insert_map_free x s m free) (d, ds)
  | inr (r, taken) ↦ rw (insert_map_taken x s r m taken) ds
]

-- A variable cannot be called, and a function's symbol has its parameters.
pub var_symbol-IsDeclared : (a : VType) (line n : ℕ) → IsDeclared (var_symbol a line n)
var_symbol-IsDeclared a line n c = cc c.function

pub func_symbol-IsDeclared :
    (a : VType) (ps : List VType) (line n : ℕ) → IsDeclared (func_symbol a ps line n)
func_symbol-IsDeclared a ps line n c = record { function = refl; params = ps; recorded = refl }

pub main_symbol-IsDeclared : (line n : ℕ) → IsDeclared (main_symbol line n)
main_symbol-IsDeclared line n c = cc c.not_main
