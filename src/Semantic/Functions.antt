-- ===== src/Semantic/Functions.antt =====
-- semanal/func_visitor: `FunctionVisitor`, which resolves names and checks `break` and `main`.
-- A visit returns the node with its `symbol` set. The expressions' visits only read the table.
pub mod Names
pub mod Declared
pub mod Frame
pub mod Whole
use jmm_llvm.Prelude.{
  ℕ, suc, ◌-◌, ◌==◌, Bool, true, false, Option, none, some, List, [], ◌∷◌, Bytes, not,
}
use jmm_llvm.Common.Outcome.{
  Outcome, ok, exit, fault, ◌>>=◌, ◌>>◌, error_if, no_main, return_outside_function,
  break_outside_while, undefined_variable, function_as_variable, undefined_function,
  variable_as_function, main_invoked, redefined_main, redefined_variable, redefined_parameter,
}
use jmm_llvm.Common.Symbol.{Symbol, is_var, var_symbol}
use jmm_llvm.Common.Ast.{
  Expr, Actuals, id_expr, lit_expr, unary_expr, binary_expr, bitwise_expr, assign_expr, assign_null,
  func_call_expr, no_actuals, actual, Stmt, Children, if_stmt, if_else_stmt, while_stmt,
  return_stmt, break_stmt, block_stmt, expr_stmt, null_stmt, var_decl, no_children, child,
  ParamDecl, Decl, gvar_decl, func_decl, mfunc_decl, Program,
}
use jmm_llvm.Symtab.{
  Scope, SymbolTable, make_symbol, insert, query_scope, query, enter_block, exit_block, exit_func,
}

-- `inside_while` is the size of the stack of markers.
pub record FunctionVisitor : Type 0 where
  pub symtab : SymbolTable
  pub inside_while : ℕ
  pub visited_main : Bool
  pub current_function : Option Symbol

unfoldable pub resolve_variable : Bytes → ℕ → Option (Scope × Symbol) → Outcome Symbol
resolve_variable name line none = exit (undefined_variable name line)
resolve_variable name line (some (_, s)) = do
  error_if (not (is_var s)) (function_as_variable line)
  ok s

unfoldable pub resolve_function : Bytes → ℕ → Option (Scope × Symbol) → Outcome Symbol
resolve_function name line none = exit (undefined_function name line)
resolve_function name line (some (_, s)) = do
  error_if (is_var s) (variable_as_function line)
  error_if s.is_main (main_invoked line)
  ok s

-- The visit of an `AssignExpr` with a null `rhs` calls `accept` through the null pointer.
unfoldable mutual
  pub visit_expr : Expr → SymbolTable → Outcome Expr
  visit_expr (id_expr line name _) t = do
    s ← resolve_variable name line (query name t)
    ok (id_expr line name (some s))
  visit_expr (lit_expr line l) t = ok (lit_expr line l)
  visit_expr (unary_expr line op e) t = do e' ← visit_expr e t; ok (unary_expr line op e')
  visit_expr (binary_expr line op l r) t = do
    l' ← visit_expr l t
    r' ← visit_expr r t
    ok (binary_expr line op l' r')
  visit_expr (bitwise_expr line op l r) t = do
    l' ← visit_expr l t
    r' ← visit_expr r t
    ok (bitwise_expr line op l' r')
  visit_expr (assign_expr line l r) t = do
    l' ← visit_expr l t
    r' ← visit_expr r t
    ok (assign_expr line l' r')
  visit_expr (assign_null line l) t = do l' ← visit_expr l t; fault
  visit_expr (func_call_expr line name args _) t = do
    args' ← visit_actuals args t
    s ← resolve_function name line (query name t)
    ok (func_call_expr line name args' (some s))

  pub visit_actuals : Actuals → SymbolTable → Outcome Actuals
  visit_actuals no_actuals t = ok no_actuals
  visit_actuals (actual e es) t = do
    e' ← visit_expr e t
    es' ← visit_actuals es t
    ok (actual e' es')

-- A failed insertion reads `prev->line`.
unfoldable pub declare_result : Bytes → ℕ → Bool → Option Symbol → Outcome (Unit {0})
declare_result name line true prev = ok tt
declare_result name line false none = fault
declare_result name line false (some prev) = exit (redefined_variable name line prev.line)

unfoldable pub visit_return : ℕ → Option Expr → SymbolTable → Outcome (Option Expr)
unfolding visit_expr
visit_return line none t = ok none
visit_return line (some e) t = do e' ← visit_expr e t; ok (some e')

abbrev pub is_none {ℓ} : {A : Type ℓ} → Option A → Bool
is_none none = true
is_none (some _) = false

unfoldable mutual
  pub visit_stmt : Stmt → FunctionVisitor → Outcome (Stmt × FunctionVisitor)
  visit_stmt (if_stmt line c body) v = do
    c' ← visit_expr c v.symtab
    (body', v') ← visit_stmt body v
    ok (if_stmt line c' body', v')
  visit_stmt (if_else_stmt line c body other) v = do
    c' ← visit_expr c v.symtab
    (body', v') ← visit_stmt body v
    (other', v'') ← visit_stmt other v'
    ok (if_else_stmt line c' body' other', v'')
  visit_stmt (while_stmt line c body) v = do
    let v₁ = record v { inside_while = suc v.inside_while }
    c' ← visit_expr c v₁.symtab
    (body', v₂) ← visit_stmt body v₁
    ok (while_stmt line c' body', record v₂ { inside_while = v₂.inside_while - 1 })
  visit_stmt (return_stmt line e) v = do
    e' ← visit_return line e v.symtab
    error_if (is_none v.current_function) return_outside_function
    ok (return_stmt line e', v)
  visit_stmt (break_stmt line) v = do
    error_if (v.inside_while == 0) (break_outside_while line)
    ok (break_stmt line, v)
  visit_stmt (block_stmt body) v = do
    (body', v') ← visit_children body (record v { symtab = enter_block v.symtab })
    t ← exit_block v'.symtab
    ok (block_stmt body', record v' { symtab = t })
  visit_stmt (expr_stmt e) v = do e' ← visit_expr e v.symtab; ok (expr_stmt e', v)
  visit_stmt (null_stmt line) v = ok (null_stmt line, v)
  visit_stmt (var_decl line name type _) v = do
    let (symbol, t₁) = make_symbol (var_symbol type line) v.symtab
    (t, res) ← insert Scope.block name symbol t₁
    declare_result name line res (query_scope Scope.block name t)
    ok (var_decl line name type (some symbol), record v { symtab = t })

  pub visit_children : Children → FunctionVisitor → Outcome (Children × FunctionVisitor)
  visit_children no_children v = ok (no_children, v)
  visit_children (child s ss) v = do
    (s', v') ← visit_stmt s v
    (ss', v'') ← visit_children ss v'
    ok (child s' ss', v'')

abbrev check_parameter : ParamDecl → Option Symbol → Outcome (Unit {0})
check_parameter p none = ok tt
check_parameter p (some res) = exit (redefined_parameter p.id p.type p.line res.v_type)

unfoldable pub visit_param : ParamDecl → SymbolTable → Outcome (ParamDecl × SymbolTable)
visit_param p t = do
  check_parameter p (query_scope Scope.func p.id t)
  let (symbol, t₁) = make_symbol (var_symbol p.type p.line) t
  (t', _) ← insert Scope.func p.id symbol t₁
  ok (record p { symbol = some symbol }, t')

unfoldable pub visit_params : List ParamDecl → SymbolTable → Outcome (List ParamDecl × SymbolTable)
visit_params [] t = ok ([], t)
visit_params (p ∷ ps) t = do
  (p', t') ← visit_param p t
  (ps', t'') ← visit_params ps t'
  ok (p' ∷ ps', t'')

-- The body is a block: `block_stmt`'s visit.
unfoldable pub visit_body : Children → FunctionVisitor → Outcome (Children × FunctionVisitor)
unfolding visit_stmt
visit_body body v = do
  (body', v') ← visit_children body (record v { symtab = enter_block v.symtab })
  t ← exit_block v'.symtab
  ok (body', record v' { symtab = t })

unfoldable pub visit_decl : Decl → FunctionVisitor → Outcome (Decl × FunctionVisitor)
visit_decl (gvar_decl line name type symbol) v = ok (gvar_decl line name type symbol, v)
visit_decl (func_decl line name type params body symbol) v = do
  (params', t) ← visit_params params v.symtab
  (body', v') ← visit_body body (record v { symtab = t; current_function = symbol })
  ok (
    func_decl line name type params' body' symbol,
    record v' { symtab = exit_func v'.symtab; current_function = none },
  )
visit_decl (mfunc_decl line name body symbol) v = do
  error_if v.visited_main (redefined_main line)
  (body', v') ← visit_body body (record v { current_function = symbol })
  ok (mfunc_decl line name body' symbol, record v' { visited_main = true; current_function = none })

unfoldable pub visit_decls : Program → FunctionVisitor → Outcome (Program × FunctionVisitor)
visit_decls [] v = ok ([], v)
visit_decls (d ∷ ds) v = do
  (d', v') ← visit_decl d v
  (ds', v'') ← visit_decls ds v'
  ok (d' ∷ ds', v'')

-- `visit(ASTNode*)` on the root
unfoldable pub visit : Program → FunctionVisitor → Outcome (Program × FunctionVisitor)
visit p v = do (p', v') ← visit_decls p v; error_if (not v'.visited_main) no_main; ok (p', v')

-- The visitor as the analyzer constructs it.
abbrev pub new_visitor : SymbolTable → FunctionVisitor
new_visitor t = record {
  symtab = t;
  inside_while = 0;
  visited_main = false;
  current_function = none;
}
