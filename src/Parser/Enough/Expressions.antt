-- ===== src/Parser/Enough/Expressions.antt =====
-- parser/parser.cpp, the expressions: with two units of fuel more than the lexer can give tokens,
-- `expression` ends.
use jmm_llvm.Prelude.{ℕ, zero, suc, ◌+◌, ◌≤◌, ◌<◌, List, [], ◌∷◌, refl, arith}
use jmm_llvm.Common.Token.{Token}
use jmm_llvm.Common.Types.{Op}
use jmm_llvm.Common.Ast.{Expr, unary_expr}
use jmm_llvm.Common.Outcome.{Ensures, ◌⟫◌}
use jmm_llvm.Lexer.State.{Lexer}
use jmm_llvm.Parser.Expressions.{
  Node, primary, arguments, argumentlist, functioninvocation, postfixes, postfixexpression,
  unaryexpression, prefix_op, operators, level, assignmentexpression, expression,
  multiplicativeexpression, additiveexpression, shiftexpression, relationalexpression,
  equalityexpression, bitwiseandexpression, xorexpression, bitwiseorexpression,
  conditionalandexpression, conditionalorexpression,
}
use jmm_llvm.Parser.Enough.Leaves.{literal-Ends, identifier-Ends}
use jmm_llvm.Parser.Enough.{
  Source, size, Behind, Ends, Runs, since, Real, weight, either, unless_null, match-Ends,
  match_any-Ends, error-Ends, require-Ends, non_null-Ends,
}

module _ {I : Type 0} (s : Source I) where
  module _ {n : ℕ} {expression : Node I} (h : Runs s n expression) where
    primary-Runs : Runs s (n + 1) (primary s.lex expression)
    unfolding primary
    primary-Runs l g m = literal-Ends s l g ⟫ λ (o, l₁) (g₁, h₁).
        unless_null (λ _. Behind s 0 l l₁) o l₁ _ _ (g₁, h₁)
          (λ _. match-Ends s Token.oparen refl l₁ g₁ ⟫ λ (b, l₂) w.
            either (λ b. Behind s (weight b) l₁ l₂) b l₂ _ _ w
              (λ (g₂, h₂). h l₂ g₂ (omega arith) ⟫ λ (o', l₃) (g₃, h₃).
                non_null-Ends s _ 0 o' l₂ l₃ (g₃, omega arith) ⟫ λ (e, l₄) (g₄, h₄).
                require-Ends s Token.cparen _ refl l₄ g₄ ⟫ λ (_, l₅) (g₅, h₅).
                Ensures.returns (g₅, omega arith))
              λ (g₂, h₂). Ensures.returns (g₂, omega arith))
          λ e _. Ensures.returns (g₁, h₁)

    arguments-Runs :
        (f : ℕ) (e : Expr) (l : Lexer I)
        → s.Good l.input
        → size s l < n + 1
        → size s l < f
        → Ends s (λ _. 0) l (arguments s.lex expression f e l)
    unfolding arguments
    arguments-Runs zero e l g m k = absurd (omega arith)
    arguments-Runs (suc f) e l g m k = match-Ends s Token.comma refl l g ⟫ λ (b, l₁) w.
        either (λ b. Behind s (weight b) l l₁) b l₁ _ _ w
          (λ (g₁, h₁). h l₁ g₁ (omega arith) ⟫ λ (o, l₂) (g₂, h₂).
            non_null-Ends s _ 0 o l₁ l₂ (g₂, omega arith) ⟫ λ (e', l₃) (g₃, h₃).
            arguments-Runs f e' l₃ g₃ (omega arith) (omega arith) ⟫ λ (es, l₄) (g₄, h₄).
            Ensures.returns (g₄, omega arith))
          λ (g₁, h₁). Ensures.returns (g₁, omega arith)

    argumentlist-Runs :
        (f : ℕ) (l : Lexer I)
        → s.Good l.input
        → size s l < n
        → size s l < f
        → Ends s (λ _. 0) l (argumentlist s.lex expression f l)
    unfolding argumentlist
    argumentlist-Runs f l g m k = h l g m ⟫ λ (o, l₁) (g₁, h₁).
        unless_null (λ _. Behind s 0 l l₁) o l₁ _ _ (g₁, h₁) (λ _. Ensures.returns (g₁, h₁))
          λ e _. since s 0 l l₁ (g₁, h₁) (arguments-Runs f e l₁ g₁ (omega arith) (omega arith))

    functioninvocation-Runs :
        (f : ℕ) (l : Lexer I)
        → s.Good l.input
        → size s l < n + 1
        → size s l < f
        → Ends s (λ _. 0) l (functioninvocation s.lex expression f l)
    unfolding functioninvocation
    functioninvocation-Runs f l g m k = match-Ends s Token.oparen refl l g ⟫ λ (b, l₁) w.
        either (λ b. Behind s (weight b) l l₁) b l₁ _ _ w
          (λ (g₁, h₁). argumentlist-Runs f l₁ g₁ (omega arith) (omega arith) ⟫ λ (es, l₂) (g₂, h₂).
            require-Ends s Token.cparen _ refl l₂ g₂ ⟫ λ (_, l₃) (g₃, h₃).
            Ensures.returns (g₃, omega arith))
          λ (g₁, h₁). Ensures.returns (g₁, omega arith)

    postfixes-Runs :
        (f : ℕ) (e : Expr) (l : Lexer I)
        → s.Good l.input
        → size s l < f
        → Ends s (λ _. 0) l (postfixes s.lex f e l)
    unfolding postfixes
    postfixes-Runs zero e l g m = absurd (omega arith)
    postfixes-Runs (suc f) e l g m =
        match_any-Ends s (Token.inc ∷ Token.dec ∷ []) (refl, (refl, tt)) l g ⟫ λ (b, l₁) w.
        either (λ b. Behind s (weight b) l l₁) b l₁ _ _ w
          (λ (g₁, h₁).
            since s 1 l l₁ (g₁, h₁) (postfixes-Runs f (unary_expr _ _ e) l₁ g₁ (omega arith)))
          λ (g₁, h₁). Ensures.returns (g₁, omega arith)

    postfixexpression-Runs :
        (f : ℕ) (l : Lexer I)
        → s.Good l.input
        → size s l < n + 1
        → size s l < f
        → Ends s (λ _. 0) l (postfixexpression s.lex expression f l)
    unfolding postfixexpression
    postfixexpression-Runs f l g m k = primary-Runs l g m ⟫ λ (o, l₁) (g₁, h₁).
        unless_null (λ _. Behind s 0 l l₁) o l₁ _ _ (g₁, h₁)
          (λ _. identifier-Ends s l₁ g₁ ⟫ λ (x, l₂) w.
            unless_null (λ b. Behind s (weight b) l₁ l₂) x l₂ _ _ w
              (λ (g₂, h₂). Ensures.returns (g₂, omega arith))
              λ (line, name) (g₂, h₂).
                functioninvocation-Runs f l₂ g₂ (omega arith) (omega arith) ⟫ λ (es, l₃) (g₃, h₃).
                unless_null (λ _. Behind s 0 l₂ l₃) es l₃ _ _ (g₃, h₃)
                  (λ _. since s 0 l l₃ (g₃, omega arith) (postfixes-Runs f _ l₃ g₃ (omega arith)))
                  λ es _. since s 0 l l₃ (g₃, omega arith) (postfixes-Runs f _ l₃ g₃ (omega arith)))
          λ e _. since s 0 l l₁ (g₁, h₁) (postfixes-Runs f e l₁ g₁ (omega arith))

    prefix_op-Ends :
        (t : Token) (l : Lexer I) → s.Good l.input → Ends s (λ _. 0) l (prefix_op s.lex t l)
    unfolding prefix_op
    prefix_op-Ends Token.minus l g = Ensures.returns (g, omega arith)
    prefix_op-Ends Token.not l g = Ensures.returns (g, omega arith)
    prefix_op-Ends Token.inc l g = Ensures.returns (g, omega arith)
    prefix_op-Ends Token.dec l g = Ensures.returns (g, omega arith)
    prefix_op-Ends _ l g = error-Ends s _ l g

    unaryexpression-Runs :
        (f : ℕ) (l : Lexer I)
        → s.Good l.input
        → size s l < n + 1
        → size s l + 1 < f
        → Ends s (λ _. 0) l (unaryexpression s.lex expression f l)
    unfolding unaryexpression
    unaryexpression-Runs zero l g m k = absurd (omega arith)
    unaryexpression-Runs (suc f) l g m k =
        match_any-Ends s (Token.minus ∷ Token.not ∷ Token.inc ∷ Token.dec ∷ [])
          (refl, (refl, (refl, (refl, tt)))) l g
        ⟫ λ (b, l₁) w.
            either (λ b. Behind s (weight b) l l₁) b l₁ _ _ w
              (λ (g₁, h₁). prefix_op-Ends l₁.curr_token l₁ g₁ ⟫ λ (op, l₂) (g₂, h₂).
                unaryexpression-Runs f l₂ g₂ (omega arith) (omega arith) ⟫ λ (o, l₃) (g₃, h₃).
                non_null-Ends s _ 0 o l₂ l₃ (g₃, omega arith) ⟫ λ (e, l₄) (g₄, h₄).
                Ensures.returns (g₄, omega arith))
              λ (g₁, h₁).
                since s 0 l l₁ (g₁, h₁) (postfixexpression-Runs f l₁ g₁ (omega arith) (omega arith))

  -- A level of operators ends if its operands do.
  module _ {n : ℕ} (ops : List Token) (real : Real ops) (make : Op → ℕ → Expr → Expr → Expr)
      {operand : Node I} (h : Runs s n operand) where
    operators-Runs :
        (f : ℕ) (e : Expr) (l : Lexer I)
        → s.Good l.input
        → size s l < n
        → size s l < f
        → Ends s (λ _. 0) l (operators s.lex ops make operand f e l)
    unfolding operators
    operators-Runs zero e l g m k = absurd (omega arith)
    operators-Runs (suc f) e l g m k = match_any-Ends s ops real l g ⟫ λ (b, l₁) w.
        either (λ b. Behind s (weight b) l l₁) b l₁ _ _ w
          (λ (g₁, h₁). h l₁ g₁ (omega arith) ⟫ λ (o, l₂) (g₂, h₂).
            non_null-Ends s _ 0 o l₁ l₂ (g₂, omega arith) ⟫ λ (rhs, l₃) (g₃, h₃).
            since s 0 l l₃ (g₃, omega arith) (operators-Runs f _ l₃ g₃ (omega arith) (omega arith)))
          λ (g₁, h₁). Ensures.returns (g₁, omega arith)

    level-Runs : (f : ℕ) → n ≤ f → Runs s n (level s.lex ops make operand f)
    unfolding level
    level-Runs f k l g m = h l g m ⟫ λ (o, l₁) (g₁, h₁).
        unless_null (λ _. Behind s 0 l l₁) o l₁ _ _ (g₁, h₁) (λ _. Ensures.returns (g₁, h₁))
          λ e _. since s 0 l l₁ (g₁, h₁) (operators-Runs f e l₁ g₁ (omega arith) (omega arith))

  assignmentexpression-Runs :
      {n : ℕ} {operand : Node I}
      → Runs s n operand
      → (f : ℕ) (l : Lexer I) → s.Good l.input
      → size s l < n
      → size s l < f
      → Ends s (λ _. 0) l (assignmentexpression s.lex operand f l)
  unfolding assignmentexpression
  assignmentexpression-Runs h zero l g m k = absurd (omega arith)
  assignmentexpression-Runs {n} h (suc f) l g m k = h l g m ⟫ λ (o, l₁) (g₁, h₁).
      unless_null (λ _. Behind s 0 l l₁) o l₁ _ _ (g₁, h₁) (λ _. Ensures.returns (g₁, h₁))
        λ lhs _. match-Ends s Token.assign refl l₁ g₁ ⟫ λ (b, l₂) w.
          either (λ b. Behind s (weight b) l₁ l₂) b l₂ _ _ w
            (λ (g₂, h₂).
              assignmentexpression-Runs {n = n} h f l₂ g₂ (omega arith) (omega arith)
              ⟫ λ (o', l₃) (g₃, h₃).
                  unless_null (λ _. Behind s 0 l₂ l₃) o' l₃ _ _ (g₃, h₃)
                    (λ _. Ensures.returns (g₃, omega arith))
                    λ _ _. Ensures.returns (g₃, omega arith))
            λ (g₂, h₂). Ensures.returns (g₂, omega arith)

  conditionalorexpression-Runs :
      {n : ℕ} {expression : Node I}
      → Runs s n expression
      → (f : ℕ) → n + 2 ≤ f
      → Runs s (n + 1) (conditionalorexpression s.lex expression f)
  unfolding multiplicativeexpression additiveexpression shiftexpression relationalexpression
      equalityexpression bitwiseandexpression xorexpression bitwiseorexpression
      conditionalandexpression conditionalorexpression
  conditionalorexpression-Runs {n} {expression} h f k =
      chain _ _ (refl, tt)
        (chain _ _ (refl, tt)
          (chain _ _ (refl, tt)
            (chain _ _ (refl, tt)
              (chain _ _ (refl, tt)
                (chain _ _ (refl, (refl, tt))
                  (chain _ _ (refl, (refl, (refl, (refl, tt))))
                    (chain _ _ (refl, (refl, tt))
                      (chain _ _ (refl, (refl, tt))
                        (chain _ _ (refl, (refl, (refl, tt)))
                          λ l g m. unaryexpression-Runs h f l g m (omega arith))))))))))
    where
      chain :
          (ops : List Token) (make : Op → ℕ → Expr → Expr → Expr) {operand : Node I}
          → Real ops
          → Runs s (n + 1) operand
          → Runs s (n + 1) (level s.lex ops make operand f)
      chain ops make real r = level-Runs ops real make r f (omega arith)

  pub expression-Runs : (f n : ℕ) → n + 2 ≤ f → Runs s n (expression s.lex f)
  unfolding expression
  expression-Runs zero n k l g m = absurd (omega arith)
  expression-Runs (suc f) zero k l g m = absurd (omega arith)
  expression-Runs (suc f) (suc n) k l g m =
      assignmentexpression-Runs {n = n + 1}
        (conditionalorexpression-Runs (expression-Runs f n (omega arith)) f (omega arith)) f l g
        (omega arith) (omega arith)
