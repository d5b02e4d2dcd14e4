-- ===== src/Parser/Expressions.antt =====
-- parser/parser.cpp: the expressions. The functions call one another in a cycle, `primary` back to
-- `expression`; here each takes the parser of the expressions below it, and `expression` closes the
-- cycle on fuel. Each loop takes fuel too, a unit for each round.
use jmm_llvm.Prelude.{ℕ, zero, suc, true, false, Option, none, some, List, [], ◌∷◌, if◌then◌else◌}
use jmm_llvm.Common.Token.{Token, tok_eq}
use jmm_llvm.Common.Types.{Op}
use jmm_llvm.Common.Outcome.{Outcome, running}
use jmm_llvm.Common.Ast.{
  Expr, Actuals, id_expr, unary_expr, binary_expr, bitwise_expr, assign_expr, assign_null,
  func_call_expr, no_actuals, actual,
}
use jmm_llvm.Lexer.State.{Lexer}
use jmm_llvm.Parser.Base.{
  token_to_op, Parser, ◌>>=◌, ◌>>◌, pure, line, current, match, match_any, error, require, non_null,
  identifier, literal,
}

abbrev pub Node : Type 0 → Type 0
Node I = Parser I (Option Expr)

abbrev pub stuck {ℓ} : {I : Type 0} {A : Type ℓ} → Parser I A
stuck = λ l. running

module _ {I : Type 0} (lex : Lexer I → Outcome (Lexer I)) where
  unfoldable pub primary : Node I → Node I
  primary expression = do
    node ← literal lex
    elim node [
      | some e ↦ pure (some e)
      | none ↦ do
        m ← match lex Token.oparen
        elim m [
          | true ↦ do
            node' ← expression
            e ← non_null lex "an expression" node'
            require lex Token.cparen "')' after expression"
            pure (some e)
          | false ↦ pure none
        ]
    ]

  -- The loop of `argumentlist`, behind an argument.
  unfoldable pub arguments : Node I → ℕ → Expr → Parser I Actuals
  arguments expression zero e = stuck
  arguments expression (suc f) e = do
    m ← match lex Token.comma
    elim m [
      | false ↦ pure (actual e no_actuals)
      | true ↦ do
        node ← expression
        e' ← non_null lex "an argument after comma" node
        es ← arguments expression f e'
        pure (actual e es)
    ]

  unfoldable pub argumentlist : Node I → ℕ → Parser I Actuals
  argumentlist expression f = do
    node ← expression
    elim node [ none ↦ pure no_actuals | some e ↦ arguments expression f e ]

  unfoldable pub functioninvocation : Node I → ℕ → Parser I (Option Actuals)
  functioninvocation expression f = do
    m ← match lex Token.oparen
    elim m [
      | true ↦ do
        args ← argumentlist expression f
        require lex Token.cparen "')' after argument(s)"
        pure (some args)
      | false ↦ pure none
    ]

  -- `parse_postfixexpression1`
  unfoldable pub postfixes : ℕ → Expr → Node I
  postfixes zero e = stuck
  postfixes (suc f) e = do
    m ← match_any lex (Token.inc ∷ Token.dec ∷ [])
    elim m [
      | false ↦ pure (some e)
      | true ↦ do
        t ← current
        l ← line
        postfixes f (unary_expr l (if tok_eq t Token.inc then Op.postinc else Op.postdec) e)
    ]

  unfoldable pub postfixexpression : Node I → ℕ → Node I
  postfixexpression expression f = do
    node ← primary expression
    elim node [
      | some e ↦ postfixes f e
      | none ↦ do
        id ← identifier lex
        elim id [
          | none ↦ pure none
          | some (l, name) ↦ do
            args ← functioninvocation expression f
            elim args [
              | some es ↦ postfixes f (func_call_expr l name es none)
              | none ↦ postfixes f (id_expr l name none)
            ]
        ]
    ]

  -- The prefix operators; the `default` of the switch cannot be reached behind the match.
  unfoldable pub prefix_op : Token → Parser I Op
  prefix_op Token.minus = pure Op.sub
  prefix_op Token.not = pure Op.not
  prefix_op Token.inc = pure Op.preinc
  prefix_op Token.dec = pure Op.predec
  prefix_op _ = error lex "Failed to convert Token to Operator."

  unfoldable pub unaryexpression : Node I → ℕ → Node I
  unfolding prefix_op
  unaryexpression expression zero = stuck
  unaryexpression expression (suc f) = do
    m ← match_any lex (Token.minus ∷ Token.not ∷ Token.inc ∷ Token.dec ∷ [])
    elim m [
      | false ↦ postfixexpression expression f
      | true ↦ do
        t ← current
        op ← prefix_op t
        l ← line
        node ← unaryexpression expression f
        e ← non_null lex "a unary expression" node
        pure (some (unary_expr l op e))
    ]

  -- The loop of a level of left-associative operators, behind its left operand `e`.
  unfoldable pub operators : List Token → (Op → ℕ → Expr → Expr → Expr) → Node I → ℕ → Expr → Node I
  operators ops make operand zero e = stuck
  operators ops make operand (suc f) e = do
    m ← match_any lex ops
    elim m [
      | false ↦ pure (some e)
      | true ↦ do
        t ← current
        l ← line
        node ← operand
        rhs ← non_null lex "an expression" node
        operators ops make operand f (make (token_to_op t) l e rhs)
    ]

  -- A level: an operand and the loop.
  unfoldable pub level : List Token → (Op → ℕ → Expr → Expr → Expr) → Node I → ℕ → Node I
  level ops make operand f = do
    node ← operand
    elim node [ none ↦ pure none | some e ↦ operators ops make operand f e ]

  abbrev pub binary : Op → ℕ → Expr → Expr → Expr
  binary op l e rhs = binary_expr l op e rhs

  abbrev pub bitwise : Op → ℕ → Expr → Expr → Expr
  bitwise op l e rhs = bitwise_expr l op e rhs

  unfoldable pub multiplicativeexpression : Node I → ℕ → Node I
  multiplicativeexpression expression f =
      level (Token.mult ∷ Token.div ∷ Token.modulo ∷ []) binary (unaryexpression expression f) f

  unfoldable pub additiveexpression : Node I → ℕ → Node I
  additiveexpression expression f =
      level (Token.plus ∷ Token.minus ∷ []) binary (multiplicativeexpression expression f) f

  unfoldable pub shiftexpression : Node I → ℕ → Node I
  shiftexpression expression f =
      level (Token.lshift ∷ Token.rshift ∷ []) bitwise (additiveexpression expression f) f

  unfoldable pub relationalexpression : Node I → ℕ → Node I
  relationalexpression expression f =
      level (Token.gt ∷ Token.lt ∷ Token.lteq ∷ Token.gteq ∷ []) binary
        (shiftexpression expression f) f

  unfoldable pub equalityexpression : Node I → ℕ → Node I
  equalityexpression expression f =
      level (Token.eq ∷ Token.neq ∷ []) binary (relationalexpression expression f) f

  unfoldable pub bitwiseandexpression : Node I → ℕ → Node I
  bitwiseandexpression expression f =
      level (Token.band ∷ []) (λ _. bitwise Op.band) (equalityexpression expression f) f

  unfoldable pub xorexpression : Node I → ℕ → Node I
  xorexpression expression f =
      level (Token.xor ∷ []) (λ _. bitwise Op.xor) (bitwiseandexpression expression f) f

  unfoldable pub bitwiseorexpression : Node I → ℕ → Node I
  bitwiseorexpression expression f =
      level (Token.bor ∷ []) (λ _. bitwise Op.bor) (xorexpression expression f) f

  unfoldable pub conditionalandexpression : Node I → ℕ → Node I
  conditionalandexpression expression f =
      level (Token.land ∷ []) (λ _. binary Op.land) (bitwiseorexpression expression f) f

  unfoldable pub conditionalorexpression : Node I → ℕ → Node I
  conditionalorexpression expression f =
      level (Token.lor ∷ []) (λ _. binary Op.lor) (conditionalandexpression expression f) f

  -- The right operand is not checked for null.
  unfoldable pub assignmentexpression : Node I → ℕ → Node I
  assignmentexpression operand zero = stuck
  assignmentexpression operand (suc f) = do
    node ← operand
    elim node [
      | none ↦ pure none
      | some lhs ↦ do
        m ← match lex Token.assign
        elim m [
          | false ↦ pure (some lhs)
          | true ↦ do
            l ← line
            rhs ← assignmentexpression operand f
            elim rhs [
              | some e ↦ pure (some (assign_expr l lhs e))
              | none ↦ pure (some (assign_null l lhs))
            ]
        ]
    ]

  unfoldable pub expression : ℕ → Node I
  expression zero = stuck
  expression (suc f) = assignmentexpression (conditionalorexpression (expression f) f) f
