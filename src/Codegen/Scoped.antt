-- ===== src/Codegen/Scoped.antt =====
-- The trees that the code generator handles: each variable that is used has been declared before, and
-- each function that is called is one of `known`.
use jmm_llvm.Prelude.{
  arith, ℕ, none, some, Bool, true, ◌==◌, if◌then◌else◌, ◌≡◌, ◌≢◌, Bytes, Option,
}
use jmm_llvm.Common.Types.{VType, Op}
use jmm_llvm.Common.Symbol.{Symbol}
use jmm_llvm.Common.Ast.{
  Literal, Expr, Actuals, id_expr, lit_expr, unary_expr, binary_expr, bitwise_expr, assign_expr,
  func_call_expr, no_actuals, actual, Stmt, Children, if_stmt, if_else_stmt, while_stmt,
  return_stmt, break_stmt, block_stmt, expr_stmt, null_stmt, var_decl, no_children, child,
  symbol_of,
}

abbrev pub with_address : ℕ → (ℕ → Bool) → ℕ → Bool
with_address a live b = if b == a then true else live b

pub with_address-grows :
    (a : ℕ) (live : ℕ → Bool) (b : ℕ) → live b ≡ true → with_address a live b ≡ true
with_address-grows a live b e = ground arith

module _ (known : Bytes → Bool) where
  -- `live` has the addresses of the symbols whose value is set.
  mutual
    pub data ScopedExpr (live : ℕ → Bool) : Expr → Type 0 where
      id :
          {line : ℕ} {x : Bytes} {s : Symbol}
          → live s.address ≡ true
          → ScopedExpr live (id_expr line x (some s))
      lit : {line : ℕ} {l : Literal} → ScopedExpr live (lit_expr line l)
      unary :
          {line : ℕ} {op : Op} {e : Expr}
          → ScopedExpr live e
          → ScopedExpr live (unary_expr line op e)
      binary :
          {line : ℕ} {op : Op} {l r : Expr}
          → ScopedExpr live l
          → ScopedExpr live r
          → ScopedExpr live (binary_expr line op l r)
      bitwise :
          {line : ℕ} {op : Op} {l r : Expr}
          → ScopedExpr live l
          → ScopedExpr live r
          → ScopedExpr live (bitwise_expr line op l r)
      assign :
          {line : ℕ} {l r : Expr} (s : Symbol)
          → symbol_of l ≡ some s
          → live s.address ≡ true
          → ScopedExpr live r
          → ScopedExpr live (assign_expr line l r)
      call :
          {line : ℕ} {f : Bytes} {es : Actuals} {o : Option Symbol}
          → known f ≡ true
          → AllScoped live es
          → ScopedExpr live (func_call_expr line f es o)

    pub data AllScoped (live : ℕ → Bool) : Actuals → Type 0 where
      nil : AllScoped live no_actuals
      cons :
          {e : Expr} {es : Actuals}
          → ScopedExpr live e
          → AllScoped live es
          → AllScoped live (actual e es)

  -- `Scoped live s after`: behind `s` the symbols of `after` have a value.
  mutual
    pub data Scoped : (ℕ → Bool) → Stmt → (ℕ → Bool) → Type 0 where
      if_ :
          {live after : ℕ → Bool} {line : ℕ} {e : Expr} {s : Stmt}
          → ScopedExpr live e
          → Scoped live s after
          → Scoped live (if_stmt line e s) after
      if_else :
          {live mid after : ℕ → Bool} {line : ℕ} {e : Expr} {s t : Stmt}
          → ScopedExpr live e
          → Scoped live s mid
          → Scoped mid t after
          → Scoped live (if_else_stmt line e s t) after
      while_ :
          {live after : ℕ → Bool} {line : ℕ} {e : Expr} {s : Stmt}
          → ScopedExpr live e
          → Scoped live s after
          → Scoped live (while_stmt line e s) after
      return_void : {live : ℕ → Bool} {line : ℕ} → Scoped live (return_stmt line none) live
      return_value :
          {live : ℕ → Bool} {line : ℕ} {e : Expr}
          → ScopedExpr live e
          → Scoped live (return_stmt line (some e)) live
      break_ : {live : ℕ → Bool} {line : ℕ} → Scoped live (break_stmt line) live
      block :
          {live after : ℕ → Bool} {body : Children}
          → ScopedChildren live body after
          → Scoped live (block_stmt body) after
      expr : {live : ℕ → Bool} {e : Expr} → ScopedExpr live e → Scoped live (expr_stmt e) live
      null : {live : ℕ → Bool} {line : ℕ} → Scoped live (null_stmt line) live
      var :
          {live : ℕ → Bool} {line : ℕ} {x : Bytes} {a : VType} {s : Symbol}
          → a ≢ VType.void
          → Scoped live (var_decl line x a (some s)) (with_address s.address live)

    pub data ScopedChildren : (ℕ → Bool) → Children → (ℕ → Bool) → Type 0 where
      nil : {live : ℕ → Bool} → ScopedChildren live no_children live
      cons :
          {live mid after : ℕ → Bool} {s : Stmt} {ss : Children}
          → Scoped live s mid
          → ScopedChildren mid ss after
          → ScopedChildren live (child s ss) after

  -- No symbol loses its value.
  mutual
    pub Scoped-grows :
        {live after : ℕ → Bool} {s : Stmt}
        → Scoped live s after
        → (a : ℕ) → live a ≡ true
        → after a ≡ true
    Scoped-grows (Scoped.if_ _ h) a e = Scoped-grows h a e
    Scoped-grows (Scoped.if_else _ h k) a e = Scoped-grows k a (Scoped-grows h a e)
    Scoped-grows (Scoped.while_ _ h) a e = Scoped-grows h a e
    Scoped-grows Scoped.return_void a e = e
    Scoped-grows (Scoped.return_value _) a e = e
    Scoped-grows Scoped.break_ a e = e
    Scoped-grows (Scoped.block h) a e = ScopedChildren-grows h a e
    Scoped-grows (Scoped.expr _) a e = e
    Scoped-grows Scoped.null a e = e
    Scoped-grows {live} (Scoped.var {s} _) a e = with_address-grows s.address live a e

    pub ScopedChildren-grows :
        {live after : ℕ → Bool} {ss : Children}
        → ScopedChildren live ss after
        → (a : ℕ) → live a ≡ true
        → after a ≡ true
    ScopedChildren-grows ScopedChildren.nil a e = e
    ScopedChildren-grows (ScopedChildren.cons h k) a e =
        ScopedChildren-grows k a (Scoped-grows h a e)
