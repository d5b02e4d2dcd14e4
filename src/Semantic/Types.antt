-- ===== src/Semantic/Types.antt =====
-- semanal/type_visitor: `TypeVisitor`. The visit of an expression returns the `a_type` that it stores
pub mod Sound
pub mod Complete
pub mod Statements
pub mod Whole
-- in the node; a read of a null `symbol` faults.
use jmm_llvm.Prelude.{
  ℕ, ◌==◌, Bool, true, false, Option, none, some, List, [], ◌∷◌, Bytes, not, ◌&&◌, ◌||◌, length,
}
use jmm_llvm.Common.Types.{VType, Op, vtype_eq}
use jmm_llvm.Common.Outcome.{
  Outcome, ok, exit, fault, ◌>>=◌, ◌>>◌, error_if, return_outside_function, if_condition,
  while_condition, value_from_void, return_type_differs, increment_of_rvalue, increment_of_call,
  increment_of_non_int, negation_of_non_bool, unary_on_non_int, operand_types_differ,
  operand_not_bool, operand_not_int, no_equality, not_a_binary_op, assign_to_non_identifier,
  assign_to_non_variable, assign_type_differs, wrong_argument_count, wrong_argument_types,
}
use jmm_llvm.Common.Symbol.{Symbol, is_var}
use jmm_llvm.Common.Ast.{
  symbol_of, Literal, ival, bval, sval, Expr, Actuals, id_expr, lit_expr, unary_expr, binary_expr,
  bitwise_expr, assign_expr, assign_null, func_call_expr, no_actuals, actual, Stmt, Children,
  if_stmt, if_else_stmt, while_stmt, return_stmt, break_stmt, block_stmt, expr_stmt, null_stmt,
  var_decl, no_children, child, Decl, gvar_decl, func_decl, mfunc_decl, Program,
}

-- `LitExpr::type`
abbrev pub literal_type : Literal → VType
literal_type (ival _) = VType.int
literal_type (bval _) = VType.bool
literal_type (sval _) = VType.str

-- The first group of cases in `visit(UnaryExpr*)`.
unfoldable pub check_increment : ℕ → Option Symbol → Outcome (Unit {0})
check_increment line none = exit (increment_of_rvalue line)
check_increment line (some s) = do
  error_if (not (is_var s)) (increment_of_call line)
  error_if (not (vtype_eq s.v_type VType.int)) (increment_of_non_int line)
  ok tt

-- The switch of `visit(UnaryExpr*)`, over the operand's symbol and type.
unfoldable pub check_unary : Op → ℕ → Option Symbol → VType → Outcome (Unit {0})
unfolding check_increment
check_unary Op.postinc line s a = check_increment line s
check_unary Op.postdec line s a = check_increment line s
check_unary Op.preinc line s a = check_increment line s
check_unary Op.predec line s a = check_increment line s
check_unary Op.not line s a = error_if (not (vtype_eq a VType.bool)) (negation_of_non_bool line)
check_unary op line s a = error_if (not (vtype_eq a VType.int)) (unary_on_non_int op line)

-- The four groups of cases in `visit(BinaryExpr*)`; `check_same_type` comes first in each.
abbrev check_same_type : Op → ℕ → VType → VType → Outcome (Unit {0})
check_same_type op line a b = error_if (not (vtype_eq a b)) (operand_types_differ op line)

abbrev check_logical : Op → ℕ → VType → VType → Outcome VType
check_logical op line a b = do
  check_same_type op line a b
  error_if (not (vtype_eq a VType.bool)) (operand_not_bool op line)
  ok VType.bool

abbrev check_arithmetic : Op → ℕ → VType → VType → Outcome VType
check_arithmetic op line a b = do
  check_same_type op line a b
  error_if (not (vtype_eq a VType.int)) (operand_not_int op line)
  ok a

abbrev check_equality : Op → ℕ → VType → VType → Outcome VType
check_equality op line a b = do
  check_same_type op line a b
  error_if (vtype_eq a VType.str || vtype_eq a VType.void) (no_equality op a line)
  ok VType.bool

abbrev check_order : Op → ℕ → VType → VType → Outcome VType
check_order op line a b = do
  check_same_type op line a b
  error_if (not (vtype_eq a VType.int)) (operand_not_int op line)
  ok VType.bool

-- The switch of `visit(BinaryExpr*)`, over the operands' types.
unfoldable pub check_binary : Op → ℕ → VType → VType → Outcome VType
check_binary Op.land = check_logical Op.land
check_binary Op.lor = check_logical Op.lor
check_binary Op.band = check_arithmetic Op.band
check_binary Op.bor = check_arithmetic Op.bor
check_binary Op.xor = check_arithmetic Op.xor
check_binary Op.add = check_arithmetic Op.add
check_binary Op.sub = check_arithmetic Op.sub
check_binary Op.mult = check_arithmetic Op.mult
check_binary Op.div = check_arithmetic Op.div
check_binary Op.modulo = check_arithmetic Op.modulo
check_binary Op.lshift = check_arithmetic Op.lshift
check_binary Op.rshift = check_arithmetic Op.rshift
check_binary Op.ne = check_equality Op.ne
check_binary Op.eq = check_equality Op.eq
check_binary Op.gt = check_order Op.gt
check_binary Op.lt = check_order Op.lt
check_binary Op.ge = check_order Op.ge
check_binary Op.le = check_order Op.le
check_binary op = λ line a b. exit not_a_binary_op

unfoldable pub check_assign : ℕ → Option Symbol → VType → VType → Outcome VType
check_assign line none a b = exit (assign_to_non_identifier line)
check_assign line (some s) a b = do
  error_if (not (is_var s)) (assign_to_non_variable line)
  error_if (not (vtype_eq a b)) (assign_type_differs b a line)
  ok a

-- The loop over the formal and the actual types: it stops at the first pair that differs.
unfoldable pub matches : List VType → List VType → Bool
matches (p ∷ ps) (a ∷ as') = vtype_eq p a && matches ps as'
matches ps [] = true
matches [] (a ∷ as') = false

abbrev check_arguments : ℕ → Bytes → Option (List VType) → List VType → Outcome (Unit {0})
check_arguments line name none actuals = ok tt
check_arguments line name (some params) actuals = do
  error_if (not (length params == length actuals))
      (wrong_argument_count (length params) name line (length actuals))
  error_if (not (matches params actuals)) (wrong_argument_types name line)

unfoldable pub check_call : ℕ → Bytes → Option Symbol → List VType → Outcome VType
unfolding matches
check_call line name none actuals = fault
check_call line name (some s) actuals = do
  check_arguments line name s.param_types actuals
  ok s.v_type

abbrev read_type : Option Symbol → Outcome VType
read_type none = fault
read_type (some s) = ok s.v_type

unfoldable mutual
  pub visit_expr : Expr → Outcome VType
  visit_expr (id_expr line name s) = read_type s
  visit_expr (lit_expr line l) = ok (literal_type l)
  visit_expr (unary_expr line op e) = do a ← visit_expr e; check_unary op line (symbol_of e) a; ok a
  visit_expr (binary_expr line op l r) = do
    a ← visit_expr l
    b ← visit_expr r
    check_binary op line a b
  visit_expr (bitwise_expr line op l r) = do a ← visit_expr l; b ← visit_expr r; ok a
  visit_expr (assign_expr line l r) = do
    a ← visit_expr l
    b ← visit_expr r
    check_assign line (symbol_of l) a b
  visit_expr (assign_null line l) = do a ← visit_expr l; fault
  visit_expr (func_call_expr line name args s) = do
    as' ← visit_actuals args
    check_call line name s as'

  pub visit_actuals : Actuals → Outcome (List VType)
  visit_actuals no_actuals = ok []
  visit_actuals (actual e es) = do a ← visit_expr e; as' ← visit_actuals es; ok (a ∷ as')

pub record TypeVisitor : Type 0 where
  pub current_function : Option Symbol
  pub return_visited : Bool

unfoldable pub check_return : ℕ → Option Symbol → Option VType → Outcome (Unit {0})
check_return line none value = exit return_outside_function
check_return line (some f) none = ok tt
check_return line (some f) (some a) = do
  error_if (vtype_eq f.v_type VType.void) (value_from_void line)
  error_if (not (vtype_eq f.v_type a)) (return_type_differs line)

unfoldable pub visit_return : Option Expr → Outcome (Option VType)
unfolding visit_expr
visit_return none = ok none
visit_return (some e) = do a ← visit_expr e; ok (some a)

unfoldable mutual
  pub visit_stmt : Stmt → TypeVisitor → Outcome TypeVisitor
  visit_stmt (if_stmt line c body) v = do
    a ← visit_expr c
    v' ← visit_stmt body v
    error_if (not (vtype_eq a VType.bool)) (if_condition line)
    ok v'
  visit_stmt (if_else_stmt line c body other) v = do
    a ← visit_expr c
    v' ← visit_stmt body v
    v'' ← visit_stmt other v'
    error_if (not (vtype_eq a VType.bool)) (if_condition line)
    ok v''
  visit_stmt (while_stmt line c body) v = do
    a ← visit_expr c
    v' ← visit_stmt body v
    error_if (not (vtype_eq a VType.bool)) (while_condition line)
    ok v'
  visit_stmt (return_stmt line e) v = do
    let v' = record v { return_visited = true }
    a ← visit_return e
    check_return line v'.current_function a
    ok v'
  visit_stmt (break_stmt line) v = ok v
  visit_stmt (block_stmt body) v = visit_children body v
  visit_stmt (expr_stmt e) v = do a ← visit_expr e; ok v
  visit_stmt (null_stmt line) v = ok v
  visit_stmt (var_decl line name type s) v = ok v

  pub visit_children : Children → TypeVisitor → Outcome TypeVisitor
  visit_children no_children v = ok v
  visit_children (child s ss) v = do v' ← visit_stmt s v; visit_children ss v'

unfoldable pub visit_decl : Decl → TypeVisitor → Outcome TypeVisitor
unfolding visit_stmt
visit_decl (gvar_decl line name type s) v = ok v
visit_decl (func_decl line name type params body s) v = do
  v' ← visit_children body (record v { current_function = s })
  _ ← read_type s
  ok (record v' { current_function = none })
visit_decl (mfunc_decl line name body s) v = do
  v' ← visit_children body (record v { current_function = s })
  ok (record v' { current_function = none })

-- `visit(ASTNode*)` on the root
unfoldable pub visit : Program → TypeVisitor → Outcome TypeVisitor
visit [] v = ok v
visit (d ∷ ds) v = do v' ← visit_decl d v; visit ds v'

abbrev pub new_visitor : TypeVisitor
new_visitor = record { current_function = none; return_visited = false }
