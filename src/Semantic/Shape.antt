-- ===== src/Semantic/Shape.antt =====
-- The trees that one pass hands to the next: `Shaped` by the parser, `Resolved` by the function visitor.
use jmm_llvm.Prelude.{ℕ, false, Option, none, some, List, ◌≡◌, Bytes}
use jmm_llvm.Common.Types.{VType, Op}
use jmm_llvm.Common.Symbol.{Symbol, is_var}
use jmm_llvm.Common.Ast.{
  Literal, Expr, Actuals, id_expr, lit_expr, unary_expr, binary_expr, bitwise_expr, assign_expr,
  func_call_expr, no_actuals, actual, Stmt, Children, if_stmt, if_else_stmt, while_stmt,
  return_stmt, break_stmt, block_stmt, expr_stmt, null_stmt, var_decl, no_children, child,
}
use jmm_llvm.Semantic.Rules.{IsVariable}

-- The operators that the parser puts into a `UnaryExpr`.
pub data IsUnary : Op → Type 0 where
  not : IsUnary Op.not
  minus : IsUnary Op.sub
  postinc : IsUnary Op.postinc
  postdec : IsUnary Op.postdec
  preinc : IsUnary Op.preinc
  predec : IsUnary Op.predec

-- No `AssignExpr` lacks its right-hand side, and unary nodes hold unary operators.
mutual
  pub data Shaped : Expr → Type 0 where
    id : {line : ℕ} {x : Bytes} {o : Option Symbol} → Shaped (id_expr line x o)
    lit : {line : ℕ} {l : Literal} → Shaped (lit_expr line l)
    unary : {line : ℕ} {op : Op} {e : Expr} → IsUnary op → Shaped e → Shaped (unary_expr line op e)
    binary :
        {line : ℕ} {op : Op} {l r : Expr} → Shaped l → Shaped r → Shaped (binary_expr line op l r)
    bitwise :
        {line : ℕ} {op : Op} {l r : Expr} → Shaped l → Shaped r → Shaped (bitwise_expr line op l r)
    assign : {line : ℕ} {l r : Expr} → Shaped l → Shaped r → Shaped (assign_expr line l r)
    call :
        {line : ℕ} {f : Bytes} {es : Actuals} {o : Option Symbol}
        → AllShaped es
        → Shaped (func_call_expr line f es o)

  pub data AllShaped : Actuals → Type 0 where
    nil : AllShaped no_actuals
    cons : {e : Expr} {es : Actuals} → Shaped e → AllShaped es → AllShaped (actual e es)

-- The symbol of a function that a call may name: its parameters are recorded.
pub record IsFunction (s : Symbol) : Type 0 where
  pub function : is_var s ≡ false
  pub params : List VType
  pub recorded : s.param_types ≡ some params

-- Each identifier has the symbol of a variable, each call that of a function.
mutual
  pub data Resolved : Expr → Type 0 where
    id : {line : ℕ} {x : Bytes} {s : Symbol} → IsVariable s → Resolved (id_expr line x (some s))
    lit : {line : ℕ} {l : Literal} → Resolved (lit_expr line l)
    unary :
        {line : ℕ} {op : Op} {e : Expr} → IsUnary op → Resolved e → Resolved (unary_expr line op e)
    binary :
        {line : ℕ} {op : Op} {l r : Expr}
        → Resolved l
        → Resolved r
        → Resolved (binary_expr line op l r)
    bitwise :
        {line : ℕ} {op : Op} {l r : Expr}
        → Resolved l
        → Resolved r
        → Resolved (bitwise_expr line op l r)
    assign : {line : ℕ} {l r : Expr} → Resolved l → Resolved r → Resolved (assign_expr line l r)
    call :
        {line : ℕ} {f : Bytes} {es : Actuals} {s : Symbol}
        → AllResolved es
        → IsFunction s
        → Resolved (func_call_expr line f es (some s))

  pub data AllResolved : Actuals → Type 0 where
    nil : AllResolved no_actuals
    cons : {e : Expr} {es : Actuals} → Resolved e → AllResolved es → AllResolved (actual e es)

module _ (P : Expr → Type 0) where
  -- `P` holds of each expression that stands in a statement.
  mutual
    pub data InStmt : Stmt → Type 0 where
      if_ : {line : ℕ} {c : Expr} {s : Stmt} → P c → InStmt s → InStmt (if_stmt line c s)
      if_else :
          {line : ℕ} {c : Expr} {s t : Stmt}
          → P c
          → InStmt s
          → InStmt t
          → InStmt (if_else_stmt line c s t)
      while_ : {line : ℕ} {c : Expr} {s : Stmt} → P c → InStmt s → InStmt (while_stmt line c s)
      return_void : {line : ℕ} → InStmt (return_stmt line none)
      return_value : {line : ℕ} {e : Expr} → P e → InStmt (return_stmt line (some e))
      break_ : {line : ℕ} → InStmt (break_stmt line)
      block : {body : Children} → InChildren body → InStmt (block_stmt body)
      expr : {e : Expr} → P e → InStmt (expr_stmt e)
      null : {line : ℕ} → InStmt (null_stmt line)
      var : {line : ℕ} {x : Bytes} {a : VType} {o : Option Symbol} → InStmt (var_decl line x a o)

    pub data InChildren : Children → Type 0 where
      nil : InChildren no_children
      cons : {s : Stmt} {ss : Children} → InStmt s → InChildren ss → InChildren (child s ss)
