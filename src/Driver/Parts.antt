-- ===== src/Driver/Parts.antt =====
-- A statement whose parts are scoped where they are typed is scoped where it is typed.
use jmm_llvm.Prelude.{ℕ, Bool, Bytes}
use jmm_llvm.Common.Types.{VType}
use jmm_llvm.Common.Ast.{
  if_stmt, while_stmt, if_else_stmt, block_stmt, expr_stmt, child, Expr, Stmt, Children,
}
use jmm_llvm.Semantic.Rules.{HasType, StmtTyped, ChildrenTyped}
use jmm_llvm.Codegen.Scoped.{ScopedExpr, Scoped, ScopedChildren}

module _ {known : Bytes → Bool} {ρ : VType} {live : ℕ → Bool} where
  pub if-Scoped :
      {N : Type 0} {after : ℕ → Bool} {line : ℕ} {c : Expr} {s : Stmt}
      → ((a : VType) → HasType c a → ScopedExpr known live c)
      → ((ρ : VType) → StmtTyped ρ s → N → Scoped known live s after)
      → StmtTyped ρ (if_stmt line c s)
      → N
      → Scoped known live (if_stmt line c s) after
  if-Scoped r k (StmtTyped.if_ t ts) e = Scoped.if_ (r _ t) (k _ ts e)

  pub while-Scoped :
      {N : Type 0} {after : ℕ → Bool} {line : ℕ} {c : Expr} {s : Stmt}
      → ((a : VType) → HasType c a → ScopedExpr known live c)
      → ((ρ : VType) → StmtTyped ρ s → N → Scoped known live s after)
      → StmtTyped ρ (while_stmt line c s)
      → N
      → Scoped known live (while_stmt line c s) after
  while-Scoped r k (StmtTyped.while_ t ts) e = Scoped.while_ (r _ t) (k _ ts e)

  pub if_else-Scoped :
      {N M : Type 0} {mid after : ℕ → Bool} {line : ℕ} {c : Expr} {s t : Stmt}
      → ((a : VType) → HasType c a → ScopedExpr known live c)
      → ((ρ : VType) → StmtTyped ρ s → N → Scoped known live s mid)
      → ((ρ : VType) → StmtTyped ρ t → M → Scoped known mid t after)
      → StmtTyped ρ (if_else_stmt line c s t)
      → N × M
      → Scoped known live (if_else_stmt line c s t) after
  if_else-Scoped r k k' (StmtTyped.if_else t ts ts') e =
      Scoped.if_else (r _ t) (k _ ts e.0) (k' _ ts' e.1)

  pub block-Scoped :
      {N : Type 0} {after : ℕ → Bool} {ss : Children}
      → ((ρ : VType) → ChildrenTyped ρ ss → N → ScopedChildren known live ss after)
      → StmtTyped ρ (block_stmt ss)
      → N
      → Scoped known live (block_stmt ss) after
  block-Scoped k (StmtTyped.block ts) e = Scoped.block (k _ ts e)

  pub expr-Scoped :
      {x : Expr}
      → ((a : VType) → HasType x a → ScopedExpr known live x)
      → StmtTyped ρ (expr_stmt x)
      → Scoped known live (expr_stmt x) live
  expr-Scoped r (StmtTyped.expr t) = Scoped.expr (r _ t)

  pub cons-ScopedChildren :
      {N M : Type 0} {mid after : ℕ → Bool} {s : Stmt} {ss : Children}
      → ((ρ : VType) → StmtTyped ρ s → N → Scoped known live s mid)
      → ((ρ : VType) → ChildrenTyped ρ ss → M → ScopedChildren known mid ss after)
      → ChildrenTyped ρ (child s ss)
      → N × M
      → ScopedChildren known live (child s ss) after
  cons-ScopedChildren k k' (ChildrenTyped.cons t ts) e =
      ScopedChildren.cons (k _ t e.0) (k' _ ts e.1)
