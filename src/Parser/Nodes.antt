-- ===== src/Parser/Nodes.antt =====
-- The expressions that the parser builds: what `expression` returns, if it returns.
use jmm_llvm.Prelude.{Bool-cases, inl, inr, if◌then◌else◌, ℕ, zero, suc, none, List, [], ◌∷◌, Bytes}
use jmm_llvm.Common.Types.{Op}
use jmm_llvm.Common.Token.{Token, tok_eq}
use jmm_llvm.Common.Outcome.{Outcome}
use jmm_llvm.Common.Ast.{
  Literal, Expr, Actuals, id_expr, lit_expr, unary_expr, binary_expr, bitwise_expr, assign_expr,
  assign_null, func_call_expr, no_actuals, actual,
}
use jmm_llvm.Lexer.State.{Lexer}
use jmm_llvm.Semantic.Shape.{IsUnary}
use jmm_llvm.Common.Ast.{ival, bval, sval}
use jmm_llvm.Prelude.{Bool, ◌<◌, ◌^◌, arith}
use jmm_llvm.Parser.Base.{
  skip_spaces, signed, token_to_op, match, match_any, require, literal, number, stoul_int32, line,
  identifier,
}
use jmm_llvm.Parser.Expressions.{
  Node, primary, prefix_op, arguments, argumentlist, functioninvocation, postfixes,
  postfixexpression, unaryexpression, operators, level, assignmentexpression, expression,
  conditionalorexpression, conditionalandexpression, bitwiseorexpression, xorexpression,
  bitwiseandexpression, equalityexpression, relationalexpression, shiftexpression,
  additiveexpression, multiplicativeexpression,
}
use jmm_llvm.Parser.Gives.{
  Post, IfAny, Gives, any, either, either_if, null_or_any, unless_null, error-Post, non_null-Gives,
  ◌then_◌,
}

-- The value of a literal is in the range of its type.
pub data Fits : Literal → Type 0 where
  int : {n : ℕ} → n < 2 ^ 32 → Fits (ival n)
  bool : {b : Bool} → Fits (bval b)
  str : {s : Bytes} → Fits (sval s)

-- No node has a symbol, an integer literal is below 2 ^ 32, and unary nodes hold unary operators; a right-hand side may be missing.
mutual
  pub data Parsed : Expr → Type 0 where
    id : {line : ℕ} {x : Bytes} → Parsed (id_expr line x none)
    lit : {line : ℕ} {l : Literal} → Fits l → Parsed (lit_expr line l)
    unary : {line : ℕ} {op : Op} {e : Expr} → IsUnary op → Parsed e → Parsed (unary_expr line op e)
    binary :
        {line : ℕ} {op : Op} {l r : Expr} → Parsed l → Parsed r → Parsed (binary_expr line op l r)
    bitwise :
        {line : ℕ} {op : Op} {l r : Expr} → Parsed l → Parsed r → Parsed (bitwise_expr line op l r)
    assign : {line : ℕ} {l r : Expr} → Parsed l → Parsed r → Parsed (assign_expr line l r)
    missing : {line : ℕ} {l : Expr} → Parsed l → Parsed (assign_null line l)
    call :
        {line : ℕ} {f : Bytes} {es : Actuals}
        → AllParsed es
        → Parsed (func_call_expr line f es none)

  pub data AllParsed : Actuals → Type 0 where
    nil : AllParsed no_actuals
    cons : {e : Expr} {es : Actuals} → Parsed e → AllParsed es → AllParsed (actual e es)

abbrev pub GivesNode : {I : Type 0} → Node I → Type 0
GivesNode p = Gives (IfAny Parsed) p

stoul_int32-Post : (s : Bytes) → Post (λ n. n < 2 ^ 32) (stoul_int32 s)
unfolding stoul_int32
stoul_int32-Post s = any (signed (skip_spaces s)) then_ λ n _. Post.returned (omega arith)

module _ {I : Type 0} (lex : Lexer I → Outcome (Lexer I)) where
  literal-Parsed : GivesNode (literal lex)
  unfolding literal number
  literal-Parsed l = any (match lex Token.num l) then_ λ (n, l₁) _.
      either_if n l₁ _ _
        ((stoul_int32-Post l₁.curr_lexeme then_ λ k h. Post.returned h) then_ λ k h.
          Post.returned (IfAny.node (Parsed.lit (Fits.int h))))
        (any (match lex Token.strlit l₁) then_ λ (s, l₂) _.
          either_if s l₂ _ _ (Post.returned (IfAny.node (Parsed.lit Fits.str))) (
            any (match lex Token.true_kw l₂) then_ λ (t, l₃) _.
            either_if t l₃ _ _ (Post.returned (IfAny.node (Parsed.lit Fits.bool))) (
              any (match lex Token.false_kw l₃) then_ λ (f, l₄) _.
              either_if f l₄ _ _ (Post.returned (IfAny.node (Parsed.lit Fits.bool)))
                (Post.returned IfAny.null))))

  module _ {expression : Node I} (h : GivesNode expression) where
    primary-Parsed : GivesNode (primary lex expression)
    unfolding primary
    primary-Parsed l = literal-Parsed l then_ λ (o, l₁) g.
        unless_null l₁ _ _ g
          (any (match lex Token.oparen l₁) then_ λ (m, l₂) _.
            either m l₂ _ _
              (h l₂ then_ λ (o', l₃) g'. non_null-Gives lex _ l₃ g' then_ λ (e, l₄) p.
                any (require lex Token.cparen "')' after expression" l₄) then_ λ _ _.
                Post.returned (IfAny.node p))
              (Post.returned IfAny.null))
          λ e p. Post.returned (IfAny.node p)

    arguments-AllParsed :
        (f : ℕ) {e : Expr} → Parsed e → Gives AllParsed (arguments lex expression f e)
    unfolding arguments
    arguments-AllParsed zero p l = Post.unfinished
    arguments-AllParsed (suc f) p l = any (match lex Token.comma l) then_ λ (m, l₁) _.
        either m l₁ _ _
          (h l₁ then_ λ (o, l₂) g. non_null-Gives lex _ l₂ g then_ λ (e', l₃) p'.
            arguments-AllParsed f p' l₃ then_ λ _ ps. Post.returned (AllParsed.cons p ps))
          (Post.returned (AllParsed.cons p AllParsed.nil))

    argumentlist-AllParsed : (f : ℕ) → Gives AllParsed (argumentlist lex expression f)
    unfolding argumentlist
    argumentlist-AllParsed f l = h l then_ λ (o, l₁) g.
        unless_null l₁ _ _ g (Post.returned AllParsed.nil) λ e p. arguments-AllParsed f p l₁

    functioninvocation-AllParsed :
        (f : ℕ) → Gives (IfAny AllParsed) (functioninvocation lex expression f)
    unfolding functioninvocation
    functioninvocation-AllParsed f l = any (match lex Token.oparen l) then_ λ (m, l₁) _.
        either m l₁ _ _
          (argumentlist-AllParsed f l₁ then_ λ (es, l₂) ps.
            any (require lex Token.cparen "')' after argument(s)" l₂) then_ λ _ _.
            Post.returned (IfAny.node ps))
          (Post.returned IfAny.null)

  postfix_op : (t : Token) → IsUnary (if tok_eq t Token.inc then Op.postinc else Op.postdec)
  postfix_op t = elim (Bool-cases (tok_eq t Token.inc)) [
    | inl e ↦ rw e IsUnary.postinc
    | inr e ↦ rw e IsUnary.postdec
  ]

  postfixes-Parsed : (f : ℕ) {e : Expr} → Parsed e → GivesNode (postfixes lex f e)
  unfolding postfixes
  postfixes-Parsed zero p l = Post.unfinished
  postfixes-Parsed (suc f) p l =
      any (match_any lex (Token.inc ∷ Token.dec ∷ []) l) then_ λ (m, l₁) _.
      either m l₁ _ _ (postfixes-Parsed f (Parsed.unary (postfix_op l₁.curr_token) p) l₁)
        (Post.returned (IfAny.node p))

  prefix_op-IsUnary : (t : Token) → Gives IsUnary (prefix_op lex t)
  unfolding prefix_op
  prefix_op-IsUnary Token.minus l = Post.returned IsUnary.minus
  prefix_op-IsUnary Token.not l = Post.returned IsUnary.not
  prefix_op-IsUnary Token.inc l = Post.returned IsUnary.preinc
  prefix_op-IsUnary Token.dec l = Post.returned IsUnary.predec
  prefix_op-IsUnary _ l = error-Post lex _ l

  module _ {expression : Node I} (h : GivesNode expression) where
    postfixexpression-Parsed : (f : ℕ) → GivesNode (postfixexpression lex expression f)
    unfolding postfixexpression
    postfixexpression-Parsed f l = primary-Parsed h l then_ λ (o, l₁) g.
        unless_null l₁ _ _ g
          (any (identifier lex l₁) then_ λ (x, l₂) _.
            unless_null l₂ _ _ (null_or_any x) (Post.returned IfAny.null) λ (line, name) _.
              functioninvocation-AllParsed h f l₂ then_ λ (args, l₃) gs.
              unless_null l₃ _ _ gs (postfixes-Parsed f Parsed.id l₃)
                λ es ps. postfixes-Parsed f (Parsed.call ps) l₃)
          λ e p. postfixes-Parsed f p l₁

    unaryexpression-Parsed : (f : ℕ) → GivesNode (unaryexpression lex expression f)
    unfolding unaryexpression
    unaryexpression-Parsed zero l = Post.unfinished
    unaryexpression-Parsed (suc f) l =
        any (match_any lex (Token.minus ∷ Token.not ∷ Token.inc ∷ Token.dec ∷ []) l)
        then_ λ (m, l₁) _.
            either m l₁ _ _
              (prefix_op-IsUnary l₁.curr_token l₁ then_ λ (op, l₂) u.
                unaryexpression-Parsed f l₂ then_ λ (o, l₃) g.
                non_null-Gives lex _ l₃ g then_ λ (e, l₄) p.
                Post.returned (IfAny.node (Parsed.unary u p)))
              (postfixexpression-Parsed f l₁)

  -- A node of two operands.
  abbrev MakesNode : (Op → ℕ → Expr → Expr → Expr) → Type 0
  MakesNode make =
      (op : Op) (line : ℕ) (e r : Expr) → Parsed e → Parsed r → Parsed (make op line e r)

  module _ (ops : List Token) (make : Op → ℕ → Expr → Expr → Expr) (n : MakesNode make)
      {operand : Node I} (h : GivesNode operand) where
    operators-Parsed :
        (f : ℕ) {e : Expr} → Parsed e → GivesNode (operators lex ops make operand f e)
    unfolding operators
    operators-Parsed zero p l = Post.unfinished
    operators-Parsed (suc f) {e} p l = any (match_any lex ops l) then_ λ (m, l₁) _.
        either m l₁ _ _
          (h l₁ then_ λ (o, l₂) g. non_null-Gives lex _ l₂ g then_ λ (r, l₃) q.
            operators-Parsed f (n (token_to_op l₁.curr_token) l₁.lineno e r p q) l₃)
          (Post.returned (IfAny.node p))

    level-Parsed : (f : ℕ) → GivesNode (level lex ops make operand f)
    unfolding level
    level-Parsed f l = h l then_ λ (o, l₁) g.
        unless_null l₁ _ _ g (Post.returned IfAny.null) λ e p. operators-Parsed f p l₁

  module _ {operand : Node I} (h : GivesNode operand) where
    assignmentexpression-Parsed : (f : ℕ) → GivesNode (assignmentexpression lex operand f)
    unfolding assignmentexpression
    assignmentexpression-Parsed zero l = Post.unfinished
    assignmentexpression-Parsed (suc f) l = h l then_ λ (o, l₁) g.
        unless_null l₁ _ _ g (Post.returned IfAny.null) λ e p.
          any (match lex Token.assign l₁) then_ λ (m, l₂) _.
          either m l₂ _ _
            (assignmentexpression-Parsed f l₂ then_ λ (r, l₃) g'.
              unless_null l₃ _ _ g' (Post.returned (IfAny.node (Parsed.missing p)))
                λ e' p'. Post.returned (IfAny.node (Parsed.assign p p')))
            (Post.returned (IfAny.node p))

  module _ {expression : Node I} (h : GivesNode expression) (f : ℕ) where
    conditionalorexpression-Parsed : GivesNode (conditionalorexpression lex expression f)
    unfolding conditionalorexpression conditionalandexpression bitwiseorexpression xorexpression
        bitwiseandexpression equalityexpression relationalexpression shiftexpression
        additiveexpression multiplicativeexpression
    conditionalorexpression-Parsed =
        level-Parsed _ _ (λ _ _ _ _. Parsed.binary)
          (level-Parsed _ _ (λ _ _ _ _. Parsed.binary)
            (level-Parsed _ _ (λ _ _ _ _. Parsed.bitwise)
              (level-Parsed _ _ (λ _ _ _ _. Parsed.bitwise)
                (level-Parsed _ _ (λ _ _ _ _. Parsed.bitwise)
                  (level-Parsed _ _ (λ _ _ _ _. Parsed.binary)
                    (level-Parsed _ _ (λ _ _ _ _. Parsed.binary)
                      (level-Parsed _ _ (λ _ _ _ _. Parsed.bitwise)
                        (level-Parsed _ _ (λ _ _ _ _. Parsed.binary)
                          (level-Parsed _ _ (λ _ _ _ _. Parsed.binary) (unaryexpression-Parsed h f)
                            f)
                          f)
                        f)
                      f)
                    f)
                  f)
                f)
              f)
            f)
          f

  pub expression-Parsed : (f : ℕ) → GivesNode (expression lex f)
  unfolding expression
  expression-Parsed zero l = Post.unfinished
  expression-Parsed (suc f) l =
      assignmentexpression-Parsed (conditionalorexpression-Parsed (expression-Parsed f) f) f l
