-- ===== src/Semantic/Types/Sound.antt =====
-- Whatever the type visitor accepts has the type that it returns, by the rules, and on a resolved
-- tree it never reads a null pointer.
use jmm_llvm.Prelude.{
  true, Bool, ℕ, false, some, List, [], ◌∷◌, ◌≡◌, refl, Bytes, arith, not, ◌==◌, length,
}
use jmm_llvm.Common.Types.{VType, Op, vtype_eq_iff}
use jmm_llvm.Common.Symbol.{Symbol}
use jmm_llvm.Common.Outcome.{
  error_if, Error, weaken, Ensures, returns, exits, ◌⟫◌, Ensures-error_if,
}
use jmm_llvm.Common.Ast.{func_call_expr, assign_expr, Literal, Expr, Actuals, id_expr, unary_expr}
use jmm_llvm.Semantic.Rules.{IsVariable, BinaryRule, UnaryRule, IsIncrement, HasType, HaveTypes}
use jmm_llvm.Semantic.Shape.{IsUnary, Resolved, AllResolved, IsFunction}
use jmm_llvm.Semantic.Types.{
  check_arguments, symbol_of, literal_type, check_increment, check_unary, check_logical,
  check_arithmetic, check_equality, check_order, check_binary, check_assign, matches, check_call,
  visit_expr, visit_actuals,
}

literal_sound : (line : ℕ) (l : Literal) → HasType (Expr.lit_expr line l) (literal_type l)
literal_sound line (Literal.ival n) = HasType.ival
literal_sound line (Literal.bval b) = HasType.bval
literal_sound line (Literal.sval s) = HasType.sval

check_logical_sound :
    (op : Op) (line : ℕ) (a b : VType)
    → BinaryRule op VType.bool VType.bool VType.bool
    → Ensures (BinaryRule op a b) (check_logical op line a b)
check_logical_sound op line VType.bool VType.bool t = returns t
check_logical_sound op line VType.int VType.int t = exits
check_logical_sound op line VType.str VType.str t = exits
check_logical_sound op line VType.void VType.void t = exits
check_logical_sound op line a b t = exits

check_arithmetic_sound :
    (op : Op) (line : ℕ) (a b : VType)
    → BinaryRule op VType.int VType.int VType.int
    → Ensures (BinaryRule op a b) (check_arithmetic op line a b)
check_arithmetic_sound op line VType.int VType.int t = returns t
check_arithmetic_sound op line VType.bool VType.bool t = exits
check_arithmetic_sound op line VType.str VType.str t = exits
check_arithmetic_sound op line VType.void VType.void t = exits
check_arithmetic_sound op line a b t = exits

check_order_sound :
    (op : Op) (line : ℕ) (a b : VType)
    → BinaryRule op VType.int VType.int VType.bool
    → Ensures (BinaryRule op a b) (check_order op line a b)
check_order_sound op line VType.int VType.int t = returns t
check_order_sound op line VType.bool VType.bool t = exits
check_order_sound op line VType.str VType.str t = exits
check_order_sound op line VType.void VType.void t = exits
check_order_sound op line a b t = exits

check_equality_sound :
    (op : Op) (line : ℕ) (a b : VType)
    → BinaryRule op VType.int VType.int VType.bool
    → BinaryRule op VType.bool VType.bool VType.bool
    → Ensures (BinaryRule op a b) (check_equality op line a b)
check_equality_sound op line VType.int VType.int t u = returns t
check_equality_sound op line VType.bool VType.bool t u = returns u
check_equality_sound op line VType.str VType.str t u = exits
check_equality_sound op line VType.void VType.void t u = exits
check_equality_sound op line a b t u = exits

check_binary_sound :
    (op : Op) (line : ℕ) (a b : VType) → Ensures (BinaryRule op a b) (check_binary op line a b)
unfolding check_binary
check_binary_sound Op.land line a b = check_logical_sound _ line a b BinaryRule.land
check_binary_sound Op.lor line a b = check_logical_sound _ line a b BinaryRule.lor
check_binary_sound Op.band line a b = check_arithmetic_sound _ line a b BinaryRule.band
check_binary_sound Op.bor line a b = check_arithmetic_sound _ line a b BinaryRule.bor
check_binary_sound Op.xor line a b = check_arithmetic_sound _ line a b BinaryRule.xor
check_binary_sound Op.add line a b = check_arithmetic_sound _ line a b BinaryRule.add
check_binary_sound Op.sub line a b = check_arithmetic_sound _ line a b BinaryRule.sub
check_binary_sound Op.mult line a b = check_arithmetic_sound _ line a b BinaryRule.mult
check_binary_sound Op.div line a b = check_arithmetic_sound _ line a b BinaryRule.div
check_binary_sound Op.modulo line a b = check_arithmetic_sound _ line a b BinaryRule.modulo
check_binary_sound Op.lshift line a b = check_arithmetic_sound _ line a b BinaryRule.lshift
check_binary_sound Op.rshift line a b = check_arithmetic_sound _ line a b BinaryRule.rshift
check_binary_sound Op.eq line a b =
    check_equality_sound _ line a b BinaryRule.eq_int BinaryRule.eq_bool
check_binary_sound Op.ne line a b =
    check_equality_sound _ line a b BinaryRule.ne_int BinaryRule.ne_bool
check_binary_sound Op.gt line a b = check_order_sound _ line a b BinaryRule.gt
check_binary_sound Op.lt line a b = check_order_sound _ line a b BinaryRule.lt
check_binary_sound Op.ge line a b = check_order_sound _ line a b BinaryRule.ge
check_binary_sound Op.le line a b = check_order_sound _ line a b BinaryRule.le
check_binary_sound op line a b = exits

check_increment_variable :
    {op : Op} {line line' : ℕ} {x : Bytes} (s : Symbol) (a : VType)
    → IsIncrement op
    → IsVariable s
    → s.v_type ≡ a
    → Ensures
        (λ _. HasType (unary_expr line op (id_expr line' x (some s))) a)
        (check_increment line (some s))
unfolding check_increment
check_increment_variable s VType.int i v t = simp (v, t) (returns (HasType.increment i v t))
check_increment_variable s _ i v t = simp (v, t) exits

check_increment_sound :
    {op : Op} (line : ℕ) {e : Expr} {a : VType}
    → IsIncrement op
    → Resolved e
    → HasType e a
    → Ensures (λ _. HasType (unary_expr line op e) a) (check_increment line (symbol_of e))
unfolding check_increment
check_increment_sound line i (Resolved.id {s = s} v) (HasType.id {a = a} t) =
    check_increment_variable s a i v t
check_increment_sound line i (Resolved.call rs f) d = rw f.function exits
check_increment_sound line i _ d = exits

check_unary_sound :
    {op : Op} (line : ℕ) {e : Expr} (a : VType)
    → IsUnary op
    → Resolved e
    → HasType e a
    → Ensures (λ _. HasType (unary_expr line op e) a) (check_unary op line (symbol_of e) a)
unfolding check_unary
check_unary_sound line VType.bool IsUnary.not r d = returns (HasType.unary UnaryRule.not d)
check_unary_sound line _ IsUnary.not r d = exits
check_unary_sound line VType.int IsUnary.minus r d = returns (HasType.unary UnaryRule.minus d)
check_unary_sound line _ IsUnary.minus r d = exits
check_unary_sound line a IsUnary.postinc r d = check_increment_sound line IsIncrement.postinc r d
check_unary_sound line a IsUnary.postdec r d = check_increment_sound line IsIncrement.postdec r d
check_unary_sound line a IsUnary.preinc r d = check_increment_sound line IsIncrement.preinc r d
check_unary_sound line a IsUnary.predec r d = check_increment_sound line IsIncrement.predec r d

check_assign_variable :
    {line line' : ℕ} {x : Bytes} (s : Symbol) {e : Expr} (a b : VType)
    → IsVariable s
    → s.v_type ≡ a
    → HasType e b
    → Ensures
        (HasType (assign_expr line (id_expr line' x (some s)) e))
        (check_assign line (some s) a b)
unfolding check_assign
check_assign_variable s VType.int VType.int v t d = rw v (returns (HasType.assign v t d))
check_assign_variable s VType.bool VType.bool v t d = rw v (returns (HasType.assign v t d))
check_assign_variable s VType.str VType.str v t d = rw v (returns (HasType.assign v t d))
check_assign_variable s VType.void VType.void v t d = rw v (returns (HasType.assign v t d))
check_assign_variable s a b v t d = rw v exits

check_assign_sound :
    (line : ℕ) {l e : Expr} {a b : VType}
    → Resolved l
    → HasType l a
    → HasType e b
    → Ensures (HasType (assign_expr line l e)) (check_assign line (symbol_of l) a b)
unfolding check_assign
check_assign_sound line (Resolved.id {s = s} v) (HasType.id {a = a} t) d =
    check_assign_variable s a _ v t d
check_assign_sound line (Resolved.call rs f) _ d = rw f.function exits
check_assign_sound line _ _ d = exits

matches→eq :
    (ps as' : List VType)
    → not (length ps == length as') ≡ false
    → not (matches ps as') ≡ false
    → ps ≡ as'
unfolding matches
matches→eq [] [] h k = refl
matches→eq (p ∷ ps) (a ∷ as') h k = ground (arith, vtype_eq_iff p a, matches→eq ps as')
matches→eq [] (a ∷ as') h k = ground arith
matches→eq (p ∷ ps) [] h k = ground arith

error_if_sound : (b : Bool) (e : Error) → Ensures (λ (_ : Unit {0}). b ≡ false) (error_if b e)
error_if_sound true e = exits
error_if_sound false e = returns refl

check_arguments_sound :
    (line : ℕ) (f : Bytes) (params as' : List VType)
    → Ensures (λ _. params ≡ as') (check_arguments line f (some params) as')
check_arguments_sound line f params as' =
    Ensures-error_if (not (length params == length as')) _
      λ h. weaken (λ _. matches→eq params as' h) (error_if_sound (not (matches params as')) _)

check_call_sound :
    (line : ℕ) (f : Bytes) (s : Symbol) {es : Actuals} {as' : List VType}
    → IsFunction s
    → HaveTypes es as'
    → Ensures (HasType (func_call_expr line f es (some s))) (check_call line f (some s) as')
unfolding check_call
check_call_sound line f s {as' = as'} r ds = simp r.recorded (
    check_arguments_sound line f r.params as' ⟫ λ _ e.
    returns (HasType.call r.recorded (rw e ds) refl))

mutual
  unfolding visit_expr

  expr_sound : {e : Expr} → Resolved e → Ensures (HasType e) (visit_expr e)
  expr_sound (Resolved.id v) = returns (HasType.id refl)
  expr_sound (Resolved.lit {line} {l}) = returns (literal_sound line l)
  expr_sound (Resolved.unary {line} u r) =
      expr_sound r ⟫ λ a d. check_unary_sound line a u r d ⟫ λ _ h. returns h
  expr_sound (Resolved.binary {line} {op} r r') = expr_sound r ⟫ λ a d.
      expr_sound r' ⟫ λ b d'. weaken (λ _. HasType.binary d d') (check_binary_sound op line a b)
  expr_sound (Resolved.bitwise r r') =
      expr_sound r ⟫ λ a d. expr_sound r' ⟫ λ b d'. returns (HasType.bitwise d d')
  expr_sound (Resolved.assign {line} r r') =
      expr_sound r ⟫ λ a d. expr_sound r' ⟫ λ b d'. check_assign_sound line r d d'
  expr_sound (Resolved.call {line} {f} {es} {s} rs r) =
      actuals_sound rs ⟫ λ as' ds. check_call_sound line f s r ds

  actuals_sound : {es : Actuals} → AllResolved es → Ensures (HaveTypes es) (visit_actuals es)
  actuals_sound AllResolved.nil = returns HaveTypes.nil
  actuals_sound (AllResolved.cons r rs) =
      expr_sound r ⟫ λ a d. actuals_sound rs ⟫ λ as' ds. returns (HaveTypes.cons d ds)

-- On a resolved expression the visit returns a type that the rules give, or ends with an error: it
-- never reads a null pointer.
pub visit_expr_sound : {e : Expr} → Resolved e → Ensures (HasType e) (visit_expr e)
visit_expr_sound = expr_sound
