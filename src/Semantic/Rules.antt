-- ===== src/Semantic/Rules.antt =====
-- The static semantics of J-- as rules, apart from the visitors: which names an expression may use
-- and which type it has. A rule is named after the node that it is about.
use jmm_llvm.Prelude.{ℕ, true, false, Bool, Option, none, some, List, [], ◌∷◌, ◌≡◌, ◌≢◌, Bytes}
use jmm_llvm.Common.Types.{VType, Op}
use jmm_llvm.Common.Symbol.{Symbol, is_var}
use jmm_llvm.Common.Ast.{
  Literal, Expr, Actuals, id_expr, lit_expr, unary_expr, binary_expr, bitwise_expr, assign_expr,
  func_call_expr, no_actuals, actual, Stmt, Children, if_stmt, if_else_stmt, while_stmt,
  return_stmt, break_stmt, block_stmt, expr_stmt, null_stmt, var_decl, no_children, child,
}

abbrev pub IsVariable : Symbol → Type 0
IsVariable s = is_var s ≡ true

-- A function that may be called: not a variable, not the main function.
pub record IsCallable (s : Symbol) : Type 0 where
  pub function : is_var s ≡ false
  pub not_main : s.is_main ≡ false

-- `Resolves Γ e e'`: `e'` is `e` with each name bound to the symbol that `Γ` gives it.
mutual
  pub data Resolves (Γ : Bytes → Option Symbol) : Expr → Expr → Type 0 where
    id :
        {line : ℕ} {x : Bytes} {o : Option Symbol} {s : Symbol}
        → Γ x ≡ some s
        → IsVariable s
        → Resolves Γ (id_expr line x o) (id_expr line x (some s))
    lit : {line : ℕ} {l : Literal} → Resolves Γ (lit_expr line l) (lit_expr line l)
    unary :
        {line : ℕ} {op : Op} {e e' : Expr}
        → Resolves Γ e e'
        → Resolves Γ (unary_expr line op e) (unary_expr line op e')
    binary :
        {line : ℕ} {op : Op} {l r l' r' : Expr}
        → Resolves Γ l l'
        → Resolves Γ r r'
        → Resolves Γ (binary_expr line op l r) (binary_expr line op l' r')
    bitwise :
        {line : ℕ} {op : Op} {l r l' r' : Expr}
        → Resolves Γ l l'
        → Resolves Γ r r'
        → Resolves Γ (bitwise_expr line op l r) (bitwise_expr line op l' r')
    assign :
        {line : ℕ} {l r l' r' : Expr}
        → Resolves Γ l l'
        → Resolves Γ r r'
        → Resolves Γ (assign_expr line l r) (assign_expr line l' r')
    call :
        {line : ℕ} {f : Bytes} {as' bs : Actuals} {o : Option Symbol} {s : Symbol}
        → ResolvesAll Γ as' bs
        → Γ f ≡ some s
        → IsCallable s
        → Resolves Γ (func_call_expr line f as' o) (func_call_expr line f bs (some s))

  pub data ResolvesAll (Γ : Bytes → Option Symbol) : Actuals → Actuals → Type 0 where
    nil : ResolvesAll Γ no_actuals no_actuals
    cons :
        {e e' : Expr} {es es' : Actuals}
        → Resolves Γ e e'
        → ResolvesAll Γ es es'
        → ResolvesAll Γ (actual e es) (actual e' es')

-- The operators of `BinaryExpr`: the types of the operands and of the result.
pub data BinaryRule : Op → VType → VType → VType → Type 0 where
  land : BinaryRule Op.land VType.bool VType.bool VType.bool
  lor : BinaryRule Op.lor VType.bool VType.bool VType.bool
  band : BinaryRule Op.band VType.int VType.int VType.int
  bor : BinaryRule Op.bor VType.int VType.int VType.int
  xor : BinaryRule Op.xor VType.int VType.int VType.int
  add : BinaryRule Op.add VType.int VType.int VType.int
  sub : BinaryRule Op.sub VType.int VType.int VType.int
  mult : BinaryRule Op.mult VType.int VType.int VType.int
  div : BinaryRule Op.div VType.int VType.int VType.int
  modulo : BinaryRule Op.modulo VType.int VType.int VType.int
  lshift : BinaryRule Op.lshift VType.int VType.int VType.int
  rshift : BinaryRule Op.rshift VType.int VType.int VType.int
  eq_int : BinaryRule Op.eq VType.int VType.int VType.bool
  eq_bool : BinaryRule Op.eq VType.bool VType.bool VType.bool
  ne_int : BinaryRule Op.ne VType.int VType.int VType.bool
  ne_bool : BinaryRule Op.ne VType.bool VType.bool VType.bool
  gt : BinaryRule Op.gt VType.int VType.int VType.bool
  lt : BinaryRule Op.lt VType.int VType.int VType.bool
  ge : BinaryRule Op.ge VType.int VType.int VType.bool
  le : BinaryRule Op.le VType.int VType.int VType.bool

-- The operators of `UnaryExpr` that take any operand.
pub data UnaryRule : Op → VType → Type 0 where
  not : UnaryRule Op.not VType.bool
  minus : UnaryRule Op.sub VType.int

pub data IsIncrement : Op → Type 0 where
  postinc : IsIncrement Op.postinc
  postdec : IsIncrement Op.postdec
  preinc : IsIncrement Op.preinc
  predec : IsIncrement Op.predec

-- The type of an expression whose names are resolved. The operands of a `BitwiseExpr` may have any
-- types: the visitor does not look at them.
mutual
  pub data HasType : Expr → VType → Type 0 where
    id :
        {line : ℕ} {x : Bytes} {s : Symbol} {a : VType}
        → s.v_type ≡ a
        → HasType (id_expr line x (some s)) a
    ival : {line n : ℕ} → HasType (lit_expr line (Literal.ival n)) VType.int
    bval : {line : ℕ} {b : Bool} → HasType (lit_expr line (Literal.bval b)) VType.bool
    sval : {line : ℕ} {b : Bytes} → HasType (lit_expr line (Literal.sval b)) VType.str
    unary :
        {line : ℕ} {op : Op} {e : Expr} {a : VType}
        → UnaryRule op a
        → HasType e a
        → HasType (unary_expr line op e) a
    increment :
        {line line' : ℕ} {op : Op} {x : Bytes} {s : Symbol}
        → IsIncrement op
        → IsVariable s
        → s.v_type ≡ VType.int
        → HasType (unary_expr line op (id_expr line' x (some s))) VType.int
    binary :
        {line : ℕ} {op : Op} {l r : Expr} {a b c : VType}
        → HasType l a
        → HasType r b
        → BinaryRule op a b c
        → HasType (binary_expr line op l r) c
    bitwise :
        {line : ℕ} {op : Op} {l r : Expr} {a b : VType}
        → HasType l a
        → HasType r b
        → HasType (bitwise_expr line op l r) a
    assign :
        {line line' : ℕ} {x : Bytes} {s : Symbol} {r : Expr} {a : VType}
        → IsVariable s
        → s.v_type ≡ a
        → HasType r a
        → HasType (assign_expr line (id_expr line' x (some s)) r) a
    call :
        {line : ℕ} {f : Bytes} {s : Symbol} {as' : Actuals} {params : List VType} {a : VType}
        → s.param_types ≡ some params
        → HaveTypes as' params
        → s.v_type ≡ a
        → HasType (func_call_expr line f as' (some s)) a

  pub data HaveTypes : Actuals → List VType → Type 0 where
    nil : HaveTypes no_actuals []
    cons :
        {e : Expr} {es : Actuals} {a : VType} {as' : List VType}
        → HasType e a
        → HaveTypes es as'
        → HaveTypes (actual e es) (a ∷ as')

-- The statements of a function that returns `ρ`. `return;` is accepted in every function.
mutual
  pub data StmtTyped (ρ : VType) : Stmt → Type 0 where
    if_ :
        {line : ℕ} {c : Expr} {s : Stmt}
        → HasType c VType.bool
        → StmtTyped ρ s
        → StmtTyped ρ (if_stmt line c s)
    if_else :
        {line : ℕ} {c : Expr} {s t : Stmt}
        → HasType c VType.bool
        → StmtTyped ρ s
        → StmtTyped ρ t
        → StmtTyped ρ (if_else_stmt line c s t)
    while_ :
        {line : ℕ} {c : Expr} {s : Stmt}
        → HasType c VType.bool
        → StmtTyped ρ s
        → StmtTyped ρ (while_stmt line c s)
    return_void : {line : ℕ} → StmtTyped ρ (return_stmt line none)
    return_value :
        {line : ℕ} {e : Expr}
        → ρ ≢ VType.void
        → HasType e ρ
        → StmtTyped ρ (return_stmt line (some e))
    break_ : {line : ℕ} → StmtTyped ρ (break_stmt line)
    block : {body : Children} → ChildrenTyped ρ body → StmtTyped ρ (block_stmt body)
    expr : {e : Expr} {a : VType} → HasType e a → StmtTyped ρ (expr_stmt e)
    null : {line : ℕ} → StmtTyped ρ (null_stmt line)
    var : {line : ℕ} {x : Bytes} {a : VType} {o : Option Symbol} → StmtTyped ρ (var_decl line x a o)

  pub data ChildrenTyped (ρ : VType) : Children → Type 0 where
    nil : ChildrenTyped ρ no_children
    cons :
        {s : Stmt} {ss : Children}
        → StmtTyped ρ s
        → ChildrenTyped ρ ss
        → ChildrenTyped ρ (child s ss)
