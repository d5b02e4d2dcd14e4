-- ===== src/Semantic/Globals/Frame.antt =====
-- The globals' visitor adds declared symbols to the global scope, and gives each function its symbol.
use mathlib.Core.Path.{ap₂}
use jmm_llvm.Prelude.{
  ◌+◌, suc, inr, inl, Bool-cases, Bool, Option, none, some, ℕ, Bytes, [], ◌∷◌, ◌≡◌, refl, map, not,
}
use jmm_llvm.Common.Symbol.{Symbol, is_var, var_symbol, func_symbol, main_symbol}
use jmm_llvm.Common.Outcome.{Ensures, returns, exits, ◌⟫◌}
use jmm_llvm.Common.Ast.{ParamDecl, Decl, Program}
use jmm_llvm.Symtab.{Scope, Map, SymbolTable, insert, insert_map, query_scope}
use jmm_llvm.Semantic.Program.{count_bool, ShapedDecl, Entered, Every, mains, is_main_decl}
use jmm_llvm.Semantic.Functions.Declared.{
  AllDeclared, insert_map-AllDeclared, var_symbol-IsDeclared, func_symbol-IsDeclared,
  main_symbol-IsDeclared,
}
use jmm_llvm.Semantic.Globals.{check_free, visit_decl, visit}

-- The table `t` with other global symbols, when `n` symbols were made.
abbrev pub with_globals : SymbolTable → ℕ → Map → SymbolTable
with_globals t n m = record t { made = n; m_global = m }

pub check_free_ends :
    (same_kind : Symbol → Bool) (name : Bytes) (line : ℕ) (o : Option Symbol)
    → Ensures (λ _. o ≡ none) (check_free same_kind name line o)
unfolding check_free
check_free_ends same_kind name line none = returns refl
check_free_ends same_kind name line (some r) = elim (Bool-cases (same_kind r)) [
  | inl same ↦ rw same exits
  | inr differ ↦ rw differ exits
]

abbrev DeclFramed : Decl → SymbolTable → Decl × SymbolTable → Type 0
DeclFramed d t (d', t') =
    (n : ℕ) × (m : Map) × (t' ≡ with_globals t n m)
    × AllDeclared m
    × Entered d'
    × (is_main_decl d' ≡ is_main_decl d)

decl_Framed :
    (t : SymbolTable) {d : Decl}
    → AllDeclared t.m_global
    → ShapedDecl d
    → Ensures (DeclFramed d t) (visit_decl d t)
unfolding visit_decl insert
decl_Framed t g (ShapedDecl.gvar {l} {x} {a}) =
    check_free_ends is_var x l (query_scope Scope.global x t) ⟫ λ _ _. returns (
      suc t.made,
      (insert_map x (var_symbol a l t.made) t.m_global).0,
      refl,
      insert_map-AllDeclared x _ _ (var_symbol-IsDeclared a l t.made) g,
      Entered.gvar,
      refl,
    )
decl_Framed t g (ShapedDecl.func {l} {x} {a} {ps} s) =
    check_free_ends (λ s. not (is_var s)) x l (query_scope Scope.global x t) ⟫ λ _ _. returns (
      suc t.made,
      (insert_map x (func_symbol a (map (λ (p : ParamDecl). p.type) ps) l t.made) t.m_global).0,
      refl,
      insert_map-AllDeclared x _ _ (func_symbol-IsDeclared a _ l t.made) g,
      Entered.func refl s,
      refl,
    )
decl_Framed t g (ShapedDecl.main {l} {x} s) =
    check_free_ends (λ s. not (is_var s)) x l (query_scope Scope.global x t) ⟫ λ _ _. returns (
      suc t.made,
      (insert_map x (main_symbol l t.made) t.m_global).0,
      refl,
      insert_map-AllDeclared x _ _ (main_symbol-IsDeclared l t.made) g,
      Entered.main refl s,
      refl,
    )

abbrev Framed : Program → SymbolTable → Program × SymbolTable → Type 0
Framed ds t (ds', t') =
    (n : ℕ) × (m : Map) × (t' ≡ with_globals t n m)
    × AllDeclared m
    × Every Entered ds'
    × (mains ds' ≡ mains ds)

-- The pass ends the process with an error, or changes the global scope and the count of symbols
-- made alone: its symbols are declared, and each function of the tree has the symbol with its return type.
pub visit-Entered :
    (ds : Program) (t : SymbolTable)
    → AllDeclared t.m_global
    → Every ShapedDecl ds
    → Ensures (Framed ds t) (visit ds t)
unfolding visit
visit-Entered [] t g s = returns (t.made, t.m_global, refl, g, tt, refl)
visit-Entered (d ∷ ds) t g (s, ss) = decl_Framed t g s ⟫ λ (d', t') (i, m, e, g', n, k). rw e (
    visit-Entered ds (with_globals t i m) g' ss ⟫ λ (ds', t'') (i', m', e', g'', ns, ks).
    returns (i', m', e', g'', (n, ns), ap₂ (λ b n. count_bool b + n) k ks))
