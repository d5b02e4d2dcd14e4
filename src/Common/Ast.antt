-- ===== src/Common/Ast.antt =====
-- common/ast.h: the syntax tree. A node's `line` comes first where the parser sets it, its `symbol`
-- last where a visitor sets it. The type that the type visitor stores in a node is the result of
-- `Semantic.Types.visit_expr`, not a field.
use jmm_llvm.Prelude.{ℕ, Bool, Option, none, List, Bytes}
use jmm_llvm.Common.Types.{VType, Op}
use jmm_llvm.Common.Symbol.{Symbol}

-- The value of a `LitExpr`: an `int32_t` as its bit pattern, a `bool` or a string.
pub data Literal : Type 0 where
  ival : ℕ → Literal
  bval : Bool → Literal
  sval : Bytes → Literal

-- `assign_null` is the `AssignExpr` whose `rhs` is a null pointer.
mutual
  pub data Expr : Type 0 where
    id_expr : ℕ → Bytes → Option Symbol → Expr
    lit_expr : ℕ → Literal → Expr
    unary_expr : ℕ → Op → Expr → Expr
    binary_expr : ℕ → Op → Expr → Expr → Expr
    bitwise_expr : ℕ → Op → Expr → Expr → Expr
    assign_expr : ℕ → Expr → Expr → Expr
    assign_null : ℕ → Expr → Expr
    func_call_expr : ℕ → Bytes → Actuals → Option Symbol → Expr

  pub data Actuals : Type 0 where
    no_actuals : Actuals
    actual : Expr → Actuals → Actuals

-- `node->symbol` of an expression: null but for the two kinds of node that the function visitor sets.
abbrev pub symbol_of : Expr → Option Symbol
symbol_of (id_expr _ _ s) = s
symbol_of (func_call_expr _ _ _ s) = s
symbol_of _ = none

mutual
  pub data Stmt : Type 0 where
    if_stmt : ℕ → Expr → Stmt → Stmt
    if_else_stmt : ℕ → Expr → Stmt → Stmt → Stmt
    while_stmt : ℕ → Expr → Stmt → Stmt
    return_stmt : ℕ → Option Expr → Stmt
    break_stmt : ℕ → Stmt
    block_stmt : Children → Stmt
    expr_stmt : Expr → Stmt
    null_stmt : ℕ → Stmt
    var_decl : ℕ → Bytes → VType → Option Symbol → Stmt

  -- `children` of a block.
  pub data Children : Type 0 where
    no_children : Children
    child : Stmt → Children → Children

pub record ParamDecl : Type 0 where
  pub line : ℕ
  pub id : Bytes
  pub type : VType
  pub symbol : Option Symbol

-- The body of a function is the list of children of its block.
pub data Decl : Type 0 where
  gvar_decl : ℕ → Bytes → VType → Option Symbol → Decl
  func_decl : ℕ → Bytes → VType → List ParamDecl → Children → Option Symbol → Decl
  mfunc_decl : ℕ → Bytes → Children → Option Symbol → Decl

abbrev pub Program : Type 0
Program = List Decl
