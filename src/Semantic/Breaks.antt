-- ===== src/Semantic/Breaks.antt =====
-- Where `break` may stand.
use jmm_llvm.Prelude.{ℕ, suc, ◌<◌, Option, Bytes}
use jmm_llvm.Common.Types.{VType}
use jmm_llvm.Common.Symbol.{Symbol}
use jmm_llvm.Common.Ast.{
  Expr, Stmt, Children, if_stmt, while_stmt, return_stmt, break_stmt, block_stmt, var_decl,
  if_else_stmt, expr_stmt, null_stmt, no_children, child,
}

-- Every `break` stands in a `while`; `n` counts the loops around the statement.
mutual
  pub data BreaksInside : ℕ → Stmt → Type 0 where
    if_ : {n line : ℕ} {c : Expr} {s : Stmt} → BreaksInside n s → BreaksInside n (if_stmt line c s)
    if_else :
        {n line : ℕ} {c : Expr} {s t : Stmt}
        → BreaksInside n s
        → BreaksInside n t
        → BreaksInside n (if_else_stmt line c s t)
    while_ :
        {n line : ℕ} {c : Expr} {s : Stmt}
        → BreaksInside (suc n) s
        → BreaksInside n (while_stmt line c s)
    return_ : {n line : ℕ} {e : Option Expr} → BreaksInside n (return_stmt line e)
    break_ : {n line : ℕ} → 0 < n → BreaksInside n (break_stmt line)
    block : {n : ℕ} {body : Children} → AllBreaksInside n body → BreaksInside n (block_stmt body)
    expr : {n : ℕ} {e : Expr} → BreaksInside n (expr_stmt e)
    null : {n line : ℕ} → BreaksInside n (null_stmt line)
    var :
        {n line : ℕ} {x : Bytes} {a : VType} {o : Option Symbol}
        → BreaksInside n (var_decl line x a o)

  pub data AllBreaksInside : ℕ → Children → Type 0 where
    nil : {n : ℕ} → AllBreaksInside n no_children
    cons :
        {n : ℕ} {s : Stmt} {ss : Children}
        → BreaksInside n s
        → AllBreaksInside n ss
        → AllBreaksInside n (child s ss)
