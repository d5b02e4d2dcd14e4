-- ===== src/Parser/Enough/Statements.antt =====
-- parser/parser.cpp, the statements: with three units of fuel more than the lexer can give tokens,
-- `statement` ends, and one that it returns has taken a token.
use jmm_llvm.Prelude.{ℕ, zero, suc, ◌+◌, ◌≤◌, ◌<◌, none, some, refl, arith}
use jmm_llvm.Common.Token.{Token}
use jmm_llvm.Common.Outcome.{Ensures, ◌⟫◌, weaken}
use jmm_llvm.Common.Ast.{Stmt, Children, block_stmt}
use jmm_llvm.Lexer.State.{Lexer}
use jmm_llvm.Prelude.{Option}
use jmm_llvm.Parser.Base.{Parser, pure}
use jmm_llvm.Parser.Statements.{
  StmtNode, or_else, variabledeclaration, expr_statement, simple_stmt, return_statement,
  break_statement, if_statement, while_statement, children, block, block_statement, statement,
}
use jmm_llvm.Parser.Enough.Leaves.{identifier-Ends, type-Ends}
use jmm_llvm.Parser.Enough.{
  Source, size, Behind, Ends, weight, found, either, either_if, unless_null, match-Ends,
  require-Ends, non_null-Ends,
}
use jmm_llvm.Parser.Enough.Expressions.{expression-Runs}

module _ {I : Type 0} (s : Source I) where
  abbrev pub StmtRuns : {A : Type 0} → ℕ → Parser I (Option A) → Type 0
  StmtRuns n p =
      (l : Lexer I) → s.Good l.input → size s l < n → Ends s (λ o. weight (found o)) l (p l)

  or_else-Runs : {n : ℕ} (p q : StmtNode I) → StmtRuns n p → StmtRuns n q → StmtRuns n (or_else p q)
  or_else-Runs p q g h l good m = g l good m ⟫ λ (o, l₁) w. otherwise o l₁ w
    where
      otherwise :
          (o : Option Stmt) (l₁ : Lexer I)
          → Behind s (weight (found o)) l l₁
          → Ends s
              (λ o. weight (found o))
              l
              ((elim o as (λ _. StmtNode I) [ some s ↦ pure (some s) | none ↦ q ]) l₁)
      otherwise (some t) l₁ w = Ensures.returns w
      otherwise none l₁ (g₁, h₁) = weaken (λ _ (g', h'). (g', omega arith)) (h l₁ g₁ (omega arith))

  variabledeclaration-Runs : {n : ℕ} → StmtRuns n (variabledeclaration s.lex)
  unfolding variabledeclaration
  variabledeclaration-Runs l g m = type-Ends s l g ⟫ λ (o, l₁) w.
      unless_null (λ b. Behind s (weight b) l l₁) o l₁ _ _ w (λ (g₁, h₁). Ensures.returns (g₁, h₁))
        λ a (g₁, h₁). identifier-Ends s l₁ g₁ ⟫ λ (x, l₂) (g₂, h₂).
          non_null-Ends s _ 0 x l₁ l₂ (g₂, omega arith) ⟫ λ ((line, name), l₃) (g₃, h₃).
          require-Ends s Token.semicol _ refl l₃ g₃ ⟫ λ (_, l₄) (g₄, h₄).
          Ensures.returns (g₄, omega arith)

  break_statement-Runs : {n : ℕ} → StmtRuns n (break_statement s.lex)
  unfolding break_statement
  break_statement-Runs l g m = match-Ends s Token.break_kw refl l g ⟫ λ (b, l₁) w.
      either_if (λ b. Behind s (weight b) l l₁) b l₁ _ _ w (λ b'. Ensures.returns b')
        λ b'. Ensures.returns b'

  module _ {n : ℕ} (f : ℕ) (enough : n + 2 ≤ f) where
    expr_statement-Runs : StmtRuns n (expr_statement s.lex f)
    unfolding expr_statement
    expr_statement-Runs l g m = expression-Runs s f n enough l g m ⟫ λ (o, l₁) (g₁, h₁).
        unless_null (λ _. Behind s 0 l l₁) o l₁ _ _ (g₁, h₁) (λ _. Ensures.returns (g₁, h₁))
          λ e _. require-Ends s Token.semicol _ refl l₁ g₁ ⟫ λ (_, l₂) (g₂, h₂).
            Ensures.returns (g₂, omega arith)

    simple_stmt-Runs : StmtRuns n (simple_stmt s.lex f)
    unfolding simple_stmt
    simple_stmt-Runs l g m = match-Ends s Token.semicol refl l g ⟫ λ (b, l₁) w.
        either_if (λ b. Behind s (weight b) l l₁) b l₁ _ _ w (λ b'. Ensures.returns b')
          λ (g₁, h₁).
            weaken (λ _ (g', h'). (g', omega arith)) (expr_statement-Runs l₁ g₁ (omega arith))

    return_statement-Runs : StmtRuns n (return_statement s.lex f)
    unfolding return_statement
    return_statement-Runs l g m = match-Ends s Token.return_kw refl l g ⟫ λ (b, l₁) w.
        either (λ b. Behind s (weight b) l l₁) b l₁ _ _ w
          (λ (g₁, h₁). expression-Runs s f n enough l₁ g₁ (omega arith) ⟫ λ (o, l₂) (g₂, h₂).
            require-Ends s Token.semicol _ refl l₂ g₂ ⟫ λ (_, l₃) (g₃, h₃).
            Ensures.returns (g₃, omega arith))
          λ b'. Ensures.returns b'

  module _ {n : ℕ} {statement : StmtNode I} (h : StmtRuns n statement) (f : ℕ)
      (enough : n + 2 ≤ f) where
    if_statement-Runs : StmtRuns (n + 1) (if_statement s.lex statement f)
    unfolding if_statement
    if_statement-Runs l g m = match-Ends s Token.if_kw refl l g ⟫ λ (b, l₁) w.
        either (λ b. Behind s (weight b) l l₁) b l₁ _ _ w
          (λ (g₁, h₁). require-Ends s Token.oparen _ refl l₁ g₁ ⟫ λ (_, l₂) (g₂, h₂).
            expression-Runs s f n enough l₂ g₂ (omega arith) ⟫ λ (o, l₃) (g₃, h₃).
            non_null-Ends s _ 0 o l₂ l₃ (g₃, omega arith) ⟫ λ (c, l₄) (g₄, h₄).
            require-Ends s Token.cparen _ refl l₄ g₄ ⟫ λ (_, l₅) (g₅, h₅).
            h l₅ g₅ (omega arith) ⟫ λ (o', l₆) (g₆, h₆).
            non_null-Ends s _ 0 o' l₅ l₆ (g₆, omega arith) ⟫ λ (t, l₇) (g₇, h₇).
            match-Ends s Token.else_kw refl l₇ g₇ ⟫ λ (e, l₈) w'.
            either (λ b. Behind s (weight b) l₇ l₈) e l₈ _ _ w'
              (λ (g₈, h₈). h l₈ g₈ (omega arith) ⟫ λ (o'', l₉) (g₉, h₉).
                non_null-Ends s _ 0 o'' l₈ l₉ (g₉, omega arith) ⟫ λ (u, l') (g', h').
                Ensures.returns (g', omega arith))
              λ (g₈, h₈). Ensures.returns (g₈, omega arith))
          λ b'. Ensures.returns b'

    while_statement-Runs : StmtRuns (n + 1) (while_statement s.lex statement f)
    unfolding while_statement
    while_statement-Runs l g m = match-Ends s Token.while_kw refl l g ⟫ λ (b, l₁) w.
        either (λ b. Behind s (weight b) l l₁) b l₁ _ _ w
          (λ (g₁, h₁). require-Ends s Token.oparen _ refl l₁ g₁ ⟫ λ (_, l₂) (g₂, h₂).
            expression-Runs s f n enough l₂ g₂ (omega arith) ⟫ λ (o, l₃) (g₃, h₃).
            non_null-Ends s _ 0 o l₂ l₃ (g₃, omega arith) ⟫ λ (c, l₄) (g₄, h₄).
            require-Ends s Token.cparen _ refl l₄ g₄ ⟫ λ (_, l₅) (g₅, h₅).
            h l₅ g₅ (omega arith) ⟫ λ (o', l₆) (g₆, h₆).
            non_null-Ends s _ 0 o' l₅ l₆ (g₆, omega arith) ⟫ λ (t, l₇) (g₇, h₇).
            Ensures.returns (g₇, omega arith))
          λ b'. Ensures.returns b'

    children-Runs :
        (f : ℕ) (l : Lexer I)
        → s.Good l.input
        → size s l < n
        → size s l < f
        → Ends s (λ _. 0) l (children s.lex statement f l)
    unfolding children
    children-Runs zero l g m k = absurd (omega arith)
    children-Runs (suc f) l g m k = h l g m ⟫ λ (o, l₁) w.
        unless_null (λ b. Behind s (weight b) l l₁) o l₁ _ _ w (λ b'. Ensures.returns b')
          λ t (g₁, h₁). children-Runs f l₁ g₁ (omega arith) (omega arith) ⟫ λ (ts, l₂) (g₂, h₂).
            Ensures.returns (g₂, omega arith)

    pub block-Runs : StmtRuns (n + 1) (block s.lex statement f)
    unfolding block
    block-Runs l g m = match-Ends s Token.obrck refl l g ⟫ λ (b, l₁) w.
        either (λ b. Behind s (weight b) l l₁) b l₁ _ _ w
          (λ (g₁, h₁). children-Runs f l₁ g₁ (omega arith) (omega arith) ⟫ λ (ts, l₂) (g₂, h₂).
            require-Ends s Token.cbrck _ refl l₂ g₂ ⟫ λ (_, l₃) (g₃, h₃).
            Ensures.returns (g₃, omega arith))
          λ b'. Ensures.returns b'

    block_statement-Runs : StmtRuns (n + 1) (block_statement s.lex statement f)
    unfolding block_statement
    block_statement-Runs l g m = block-Runs l g m ⟫ λ (o, l₁) w. returned o l₁ w
      where
        returned :
            (o : Option Children) (l₁ : Lexer I)
            → Behind s (weight (found o)) l l₁
            → Ends s
                (λ o. weight (found o))
                l
                ((elim o as (λ _. StmtNode I) [
                  | some ss ↦ pure (some (block_stmt ss))
                  | none ↦ pure none
                ])
                  l₁)
        returned (some t) l₁ w = Ensures.returns w
        returned none l₁ w = Ensures.returns w

  pub statement-Runs : (f n : ℕ) → n + 3 ≤ f → StmtRuns n (statement s.lex f)
  unfolding statement
  statement-Runs zero n k l g m = absurd (omega arith)
  statement-Runs (suc f) zero k l g m = absurd (omega arith)
  statement-Runs (suc f) (suc n) k l g m =
      let inner = statement-Runs f n (omega arith) in
      or_else-Runs {n = n + 1} _ _ variabledeclaration-Runs
        (or_else-Runs _ _ (simple_stmt-Runs f (omega arith)) (
          or_else-Runs _ _ (return_statement-Runs f (omega arith)) (
            or_else-Runs _ _ break_statement-Runs (
              or_else-Runs _ _ (block_statement-Runs inner f (omega arith)) (
                or_else-Runs _ _ (if_statement-Runs inner f (omega arith))
                  (while_statement-Runs inner f (omega arith)))))))
        l g (omega arith)
