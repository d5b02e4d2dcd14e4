-- ===== src/Semantic/Globals.antt =====
-- semanal/global_visitor: `GlobalsVisitor`, which enters every global declaration into the table.
pub mod Frame
pub mod Recorded
use jmm_llvm.Prelude.{Bool, Option, none, some, [], ◌∷◌, map, Bytes, not, ℕ, if◌then◌else◌}
use jmm_llvm.Common.Outcome.{
  Outcome, ok, exit, ◌>>=◌, ◌>>◌, redefined_global, redefined_global_kind,
}
use jmm_llvm.Common.Symbol.{Symbol, is_var, func_symbol, main_symbol, var_symbol}
use jmm_llvm.Common.Ast.{ParamDecl, Decl, gvar_decl, func_decl, mfunc_decl, Program}
use jmm_llvm.Symtab.{Scope, SymbolTable, make_symbol, insert, query_scope}

-- The test at the head of each `visit`: `same_kind` tells a symbol of the kind that is declared.
unfoldable pub check_free : (Symbol → Bool) → Bytes → ℕ → Option Symbol → Outcome (Unit {0})
check_free same_kind name line none = ok tt
check_free same_kind name line (some res) =
    if same_kind res
    then exit (redefined_global name line res.line)
    else exit (redefined_global_kind name line res.line)

unfoldable pub visit_decl : Decl → SymbolTable → Outcome (Decl × SymbolTable)
unfolding check_free
visit_decl (gvar_decl line name type _) t = do
  check_free is_var name line (query_scope Scope.global name t)
  let (symbol, t₁) = make_symbol (var_symbol type line) t
  (t', _) ← insert Scope.global name symbol t₁
  ok (gvar_decl line name type (some symbol), t')
visit_decl (func_decl line name type params body _) t = do
  check_free (λ s. not (is_var s)) name line (query_scope Scope.global name t)
  let (symbol, t₁) = make_symbol (func_symbol type (map (λ (p : ParamDecl). p.type) params) line) t
  (t', _) ← insert Scope.global name symbol t₁
  ok (func_decl line name type params body (some symbol), t')
visit_decl (mfunc_decl line name body _) t = do
  check_free (λ s. not (is_var s)) name line (query_scope Scope.global name t)
  let (symbol, t₁) = make_symbol (main_symbol line) t
  (t', _) ← insert Scope.global name symbol t₁
  ok (mfunc_decl line name body (some symbol), t')

-- `visit(ASTNode*)` on the root
unfoldable pub visit : Program → SymbolTable → Outcome (Program × SymbolTable)
visit [] t = ok ([], t)
visit (d ∷ ds) t = do (d', t') ← visit_decl d t; (ds', t'') ← visit ds t'; ok (d' ∷ ds', t'')
