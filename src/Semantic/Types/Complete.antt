-- ===== src/Semantic/Types/Complete.antt =====
-- Every type that the rules give an expression is the one that the type visitor returns.
use jmm_llvm.Prelude.{ℕ, true, Option, some, List, [], ◌∷◌, ◌≡◌, refl, Bytes, arith, ◌==◌}
use jmm_llvm.Common.Types.{VType, Op, vtype_eq_refl}
use jmm_llvm.Common.Symbol.{Symbol}
use jmm_llvm.Common.Outcome.{ok}
use jmm_llvm.Common.Ast.{Expr, Actuals}
use jmm_llvm.Semantic.Rules.{IsVariable, BinaryRule, UnaryRule, IsIncrement, HasType, HaveTypes}
use jmm_llvm.Semantic.Types.{
  symbol_of, check_increment, check_unary, check_binary, check_assign, matches, check_call,
  visit_expr, visit_actuals,
}

check_binary_complete :
    {op : Op} (line : ℕ) {a b c : VType} → BinaryRule op a b c → check_binary op line a b ≡ ok c
unfolding check_binary
check_binary_complete line BinaryRule.land = refl
check_binary_complete line _ = refl

check_unary_complete :
    {op : Op} (line : ℕ) (o : Option Symbol) {a : VType}
    → UnaryRule op a
    → check_unary op line o a ≡ ok tt
unfolding check_unary
check_unary_complete line o UnaryRule.not = refl
check_unary_complete line o UnaryRule.minus = refl

check_increment_complete :
    {op : Op} (line : ℕ) (s : Symbol) (a : VType)
    → IsIncrement op
    → IsVariable s
    → s.v_type ≡ VType.int
    → check_unary op line (some s) a ≡ ok tt
unfolding check_unary check_increment
check_increment_complete line s a IsIncrement.postinc v t = simp (v, t)
check_increment_complete line s a _ v t = simp (v, t)

check_assign_complete :
    (line : ℕ) (s : Symbol) (a : VType) → IsVariable s → check_assign line (some s) a a ≡ ok a
unfolding check_assign
check_assign_complete line s a v = simp (v, vtype_eq_refl)

matches_refl : (ps : List VType) → matches ps ps ≡ true
unfolding matches
matches_refl [] = refl
matches_refl (p ∷ ps) = simp (vtype_eq_refl, matches_refl ps)

eq_refl : (n : ℕ) → (n == n) ≡ true
eq_refl n = ground arith

check_call_complete :
    (line : ℕ) (f : Bytes) (s : Symbol) (ps : List VType)
    → s.param_types ≡ some ps
    → check_call line f (some s) ps ≡ ok s.v_type
unfolding check_call
check_call_complete line f s ps r = simp (r, matches_refl, eq_refl)

mutual
  unfolding visit_expr

  expr_complete : {e : Expr} {a : VType} → HasType e a → visit_expr e ≡ ok a
  expr_complete (HasType.id t) = simp t
  expr_complete HasType.ival = refl
  expr_complete HasType.bval = refl
  expr_complete HasType.sval = refl
  expr_complete (HasType.unary {line} {op} {e} u d) =
      simp (expr_complete d, check_unary_complete line (symbol_of e) u)
  expr_complete (HasType.increment {line} {s = s} i v t) =
      simp (check_increment_complete line s VType.int i v t, t)
  expr_complete (HasType.binary {line} d d' b) =
      simp (expr_complete d, expr_complete d', check_binary_complete line b)
  expr_complete (HasType.bitwise d d') = simp (expr_complete d, expr_complete d')
  expr_complete (HasType.assign {line} {s = s} {a = a} v t d) =
      simp (expr_complete d, t, check_assign_complete line s a v)
  expr_complete (HasType.call {line} {f} {s} {params = ps} r ds t) =
      simp (actuals_complete ds, check_call_complete line f s ps r, t)

  actuals_complete :
      {es : Actuals} {as' : List VType} → HaveTypes es as' → visit_actuals es ≡ ok as'
  actuals_complete HaveTypes.nil = refl
  actuals_complete (HaveTypes.cons d ds) = simp (expr_complete d, actuals_complete ds)

-- What the rules type, the visit accepts, and it returns that type.
pub visit_expr_complete : {e : Expr} {a : VType} → HasType e a → visit_expr e ≡ ok a
visit_expr_complete = expr_complete
