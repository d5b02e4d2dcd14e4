-- ===== src/Semantic/Types/Statements.antt =====
-- The type visitor decides the rules: on expressions, and on the statements of a function.
use jmm_llvm.Prelude.{◌∙◌, ◌≢◌, ℕ, true, false, Bool, some, ◌≡◌, ◌↔◌, refl, not, ◌||◌}
use jmm_llvm.Common.Types.{VType, vtype_eq}
use jmm_llvm.Common.Symbol.{Symbol}
use jmm_llvm.Common.Outcome.{
  weaken, Outcome, ok, Error, error_if, Ensures, returns, exits, ◌⟫◌, Ensures-ok,
}
use jmm_llvm.Common.Ast.{
  Expr, Stmt, Children, if_stmt, if_else_stmt, while_stmt, return_stmt, block_stmt, no_children,
  child,
}
use jmm_llvm.Semantic.Rules.{HasType, StmtTyped, ChildrenTyped}
use jmm_llvm.Semantic.Shape.{Resolved, InStmt, InChildren}
use jmm_llvm.Semantic.Types.{
  visit_expr, TypeVisitor, check_return, visit_return, visit_stmt, visit_children,
}
use jmm_llvm.Semantic.Types.Sound.{visit_expr_sound}
use jmm_llvm.Semantic.Types.Complete.{visit_expr_complete}

-- On a resolved expression the visitor returns a type exactly when the rules give it.
pub visit_expr-HasType : (e : Expr) (a : VType) → Resolved e → (visit_expr e ≡ ok a) ↔ HasType e a
visit_expr-HasType e a r = (Ensures-ok (visit_expr_sound r), visit_expr_complete)

-- Whether a statement holds a `return`.
mutual
  has_return : Stmt → Bool
  has_return (if_stmt line c s) = has_return s
  has_return (if_else_stmt line c s t) = has_return s || has_return t
  has_return (while_stmt line c s) = has_return s
  has_return (return_stmt line e) = true
  has_return (block_stmt body) = has_return_children body
  has_return _ = false

  pub has_return_children : Children → Bool
  has_return_children no_children = false
  has_return_children (child s ss) = has_return s || has_return_children ss

-- The visitor's state behind a statement.
unfoldable pub after : Bool → TypeVisitor → TypeVisitor
after true v = record v { return_visited = true }
after false v = v

condition_sound :
    (a : VType) (e : Error) {c : Expr}
    → HasType c a
    → Ensures (λ (_ : Unit {0}). HasType c VType.bool) (error_if (not (vtype_eq a VType.bool)) e)
condition_sound VType.bool e d = returns d
condition_sound _ e d = exits

check_return_sound :
    (line : ℕ) (f : Symbol) (ρ a : VType) {e : Expr}
    → f.v_type ≡ ρ
    → HasType e a
    → Ensures (λ _. StmtTyped ρ (return_stmt line (some e))) (check_return line (some f) (some a))
unfolding check_return
check_return_sound line f VType.int VType.int t d = simp t (returns (StmtTyped.return_value (cc) d))
check_return_sound line f VType.bool VType.bool t d =
    simp t (returns (StmtTyped.return_value (cc) d))
check_return_sound line f VType.str VType.str t d = simp t (returns (StmtTyped.return_value (cc) d))
check_return_sound line f VType.void a t d = simp t exits
check_return_sound line f ρ a t d = simp t exits

visit_return_sound :
    {e : Expr}
    → Resolved e
    → Ensures (λ o. (a : VType) × (o ≡ some a) × HasType e a) (visit_return (some e))
unfolding visit_return
visit_return_sound r = visit_expr_sound r ⟫ λ a d. returns (a, refl, d)

abbrev pub Accepted : Symbol → (VType → Type 0) → TypeVisitor → Outcome TypeVisitor → Type 0
Accepted f T v r = Ensures (λ v'. T f.v_type × (v'.current_function ≡ some f)) r

module _ (f : Symbol) where
  mutual
    unfolding visit_stmt visit_return check_return

    stmt_sound :
        {s : Stmt}
        → InStmt Resolved s
        → (v : TypeVisitor) → v.current_function ≡ some f
        → Accepted f (λ ρ. StmtTyped ρ s) v (visit_stmt s v)
    stmt_sound (InStmt.if_ c s) v h = visit_expr_sound c ⟫ λ a d. stmt_sound s v h ⟫ λ v' (t, h').
        condition_sound a _ d ⟫ λ _ d'. returns (StmtTyped.if_ d' t, h')
    stmt_sound (InStmt.if_else c s s') v h = visit_expr_sound c ⟫ λ a d.
        stmt_sound s v h ⟫ λ v' (t, h'). stmt_sound s' v' h' ⟫ λ v'' (t', h'').
        condition_sound a _ d ⟫ λ _ d'. returns (StmtTyped.if_else d' t t', h'')
    stmt_sound (InStmt.while_ c s) v h = visit_expr_sound c ⟫ λ a d.
        stmt_sound s v h ⟫ λ v' (t, h').
        condition_sound a _ d ⟫ λ _ d'. returns (StmtTyped.while_ d' t, h')
    stmt_sound (InStmt.return_void {line}) v h = simp h (returns (StmtTyped.return_void, refl))
    stmt_sound (InStmt.return_value {line} e) v h = visit_return_sound e ⟫ λ o (a, p, d).
        simp (h, p) (check_return_sound line f f.v_type a refl d ⟫ λ _ t. returns (t, refl))
    stmt_sound InStmt.break_ v h = returns (StmtTyped.break_, h)
    stmt_sound (InStmt.block ss) v h =
        weaken (λ v' (t, h'). (StmtTyped.block t, h')) (children_sound ss v h)
    stmt_sound (InStmt.expr e) v h = visit_expr_sound e ⟫ λ a d. returns (StmtTyped.expr d, h)
    stmt_sound InStmt.null v h = returns (StmtTyped.null, h)
    stmt_sound InStmt.var v h = returns (StmtTyped.var, h)

    pub children_sound :
        {ss : Children}
        → InChildren Resolved ss
        → (v : TypeVisitor) → v.current_function ≡ some f
        → Accepted f (λ ρ. ChildrenTyped ρ ss) v (visit_children ss v)
    children_sound InChildren.nil v h = returns (ChildrenTyped.nil, h)
    children_sound (InChildren.cons s ss) v h = stmt_sound s v h ⟫ λ v' (t, h').
        weaken (λ _ (t', h''). (ChildrenTyped.cons t t', h'')) (children_sound ss v' h')

after-after : (a b : Bool) (v : TypeVisitor) → after b (after a v) ≡ after (a || b) v
unfolding after
after-after true true v = refl
after-after true false v = refl
after-after false b v = refl

after-current_function :
    (b : Bool) (v : TypeVisitor) → (after b v).current_function ≡ v.current_function
unfolding after
after-current_function true v = refl
after-current_function false v = refl

check_return_complete :
    (line : ℕ) (f : Symbol) (ρ : VType)
    → f.v_type ≡ ρ
    → ρ ≢ VType.void
    → check_return line (some f) (some ρ) ≡ ok tt
unfolding check_return
check_return_complete line f VType.void t n = absurd (n refl)
check_return_complete line f VType.int t n = simp t
check_return_complete line f ρ t n = simp t

module _ (f : Symbol) where
  mutual
    unfolding visit_stmt visit_return has_return after check_return

    stmt_complete :
        {s : Stmt}
        → StmtTyped f.v_type s
        → (v : TypeVisitor) → v.current_function ≡ some f
        → visit_stmt s v ≡ ok (after (has_return s) v)
    stmt_complete (StmtTyped.if_ d t) v h = simp (visit_expr_complete d, stmt_complete t v h)
    stmt_complete (StmtTyped.if_else {s = s} {t = t} d ds dt) v h = simp (
      visit_expr_complete d,
      stmt_complete ds v h,
      stmt_complete dt (after (has_return s) v) (after-current_function (has_return s) v ∙ h),
      after-after,
    )
    stmt_complete (StmtTyped.while_ d t) v h = simp (visit_expr_complete d, stmt_complete t v h)
    stmt_complete (StmtTyped.return_void {line}) v h = simp h
    stmt_complete (StmtTyped.return_value {line} n d) v h =
        simp (visit_expr_complete d, h, check_return_complete line f f.v_type refl n)
    stmt_complete StmtTyped.break_ v h = refl
    stmt_complete (StmtTyped.block t) v h = children_complete t v h
    stmt_complete (StmtTyped.expr d) v h = simp (visit_expr_complete d) refl
    stmt_complete StmtTyped.null v h = refl
    stmt_complete StmtTyped.var v h = refl

    pub children_complete :
        {ss : Children}
        → ChildrenTyped f.v_type ss
        → (v : TypeVisitor) → v.current_function ≡ some f
        → visit_children ss v ≡ ok (after (has_return_children ss) v)
    children_complete ChildrenTyped.nil v h = refl
    children_complete (ChildrenTyped.cons {s} {ss} t ts) v h = simp (
      stmt_complete t v h,
      children_complete ts (after (has_return s) v) (after-current_function (has_return s) v ∙ h),
      after-after,
    )

-- Within a function `f`, the visitor accepts a resolved statement exactly when the rules type it
-- for the return type of `f`.
pub visit_stmt-StmtTyped :
    (f : Symbol) (s : Stmt) (v : TypeVisitor)
    → InStmt Resolved s
    → v.current_function ≡ some f
    → ((v' : TypeVisitor) × (visit_stmt s v ≡ ok v')) ↔ StmtTyped f.v_type s
visit_stmt-StmtTyped f s v r h = (
  λ (v', e). (Ensures-ok (stmt_sound f r v h) e).0,
  λ t. (after (has_return s) v, stmt_complete f t v h),
)
