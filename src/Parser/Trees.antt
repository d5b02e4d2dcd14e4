-- ===== src/Parser/Trees.antt =====
-- The statements that the parser builds: what `statement` returns, if it
-- returns.
use jmm_llvm.Common.Plain.{plain, plain_inside, both_full}
use jmm_llvm.Common.Void.{not_void}
use jmm_llvm.Prelude.{◌≡◌, refl, true, ℕ, zero, suc, Option}
use jmm_llvm.Common.Token.{Token}
use jmm_llvm.Common.Outcome.{Outcome}
use jmm_llvm.Common.Ast.{Stmt, Children, return_stmt, Expr}
use jmm_llvm.Lexer.State.{Lexer}
use jmm_llvm.Semantic.Shape.{InStmt, InChildren}
use jmm_llvm.Parser.Base.{match, require, type, identifier}
use jmm_llvm.Parser.Statements.{
  StmtNode, or_else, variabledeclaration, expr_statement, simple_stmt, return_statement,
  break_statement, if_statement, while_statement, children, block, block_statement, statement,
}
use jmm_llvm.Parser.Gives.{
  Post, IfAny, Gives, any, null_or_any, either, either_if, unless_null, non_null-Gives, ◌then_◌,
}
use jmm_llvm.Parser.Nodes.{Parsed, expression-Parsed}

-- A statement from the parser: its expressions are as `expression` builds them, and none of its variables
-- is `void` or has a symbol.
abbrev pub Sound : Stmt → Type 0
Sound s = InStmt Parsed s × (plain s ≡ true)

abbrev pub AllSound : Children → Type 0
AllSound ss = InChildren Parsed ss × (plain_inside ss ≡ true)

abbrev pub GivesStmt : {I : Type 0} → StmtNode I → Type 0
GivesStmt p = Gives (IfAny Sound) p

or_else-Parsed :
    {I : Type 0} (p q : StmtNode I) → GivesStmt p → GivesStmt q → GivesStmt (or_else p q)
or_else-Parsed p q g h l =
    g l then_ λ (o, l₁) k. unless_null l₁ _ _ k (h l₁) λ s i. Post.returned (IfAny.node i)

pub type-Gives :
    {I : Type 0} (lex : Lexer I → Outcome (Lexer I))
    → Gives (IfAny (λ a. not_void a ≡ true)) (type lex)
unfolding type
type-Gives lex l = any (match lex Token.bool_kw l) then_ λ (m, l₁) _.
    either_if m l₁ _ _ (Post.returned (IfAny.node refl)) (
      any (match lex Token.int_kw l₁) then_ λ (m, l₂) _.
      either_if m l₂ _ _ (Post.returned (IfAny.node refl)) (
        any (match lex Token.str l₂) then_ λ (m, l₃) _.
        either_if m l₃ _ _ (Post.returned (IfAny.node refl)) (Post.returned IfAny.null)))

module _ {I : Type 0} (lex : Lexer I → Outcome (Lexer I)) where
  variabledeclaration-Parsed : GivesStmt (variabledeclaration lex)
  unfolding variabledeclaration plain
  variabledeclaration-Parsed l = type-Gives lex l then_ λ (o, l₁) t.
      unless_null l₁ _ _ t (Post.returned IfAny.null) λ a full.
        any (identifier lex l₁) then_ λ (x, l₂) _.
        non_null-Gives lex _ l₂ (null_or_any x) then_ λ ((line, name), l₃) _.
        any (require lex Token.semicol "semicolon after variable declaration" l₃) then_ λ _ _.
        Post.returned (IfAny.node (InStmt.var, both_full full refl))

  expr_statement-Parsed : (f : ℕ) → GivesStmt (expr_statement lex f)
  unfolding expr_statement plain
  expr_statement-Parsed f l = expression-Parsed lex f l then_ λ (o, l₁) g.
      unless_null l₁ _ _ g (Post.returned IfAny.null) λ e p.
        any (require lex Token.semicol "semicolon" l₁) then_ λ _ _.
        Post.returned (IfAny.node (InStmt.expr p, refl))

  simple_stmt-Parsed : (f : ℕ) → GivesStmt (simple_stmt lex f)
  unfolding simple_stmt plain
  simple_stmt-Parsed f l = any (match lex Token.semicol l) then_ λ (m, l₁) _.
      either_if m l₁ _ _ (Post.returned (IfAny.node (InStmt.null, refl)))
        (expr_statement-Parsed f l₁)

  returned-Parsed :
      {line : ℕ} {o : Option Expr} → IfAny Parsed o → InStmt Parsed (return_stmt line o)
  returned-Parsed IfAny.null = InStmt.return_void
  returned-Parsed (IfAny.node p) = InStmt.return_value p

  return_statement-Parsed : (f : ℕ) → GivesStmt (return_statement lex f)
  unfolding return_statement plain
  return_statement-Parsed f l = any (match lex Token.return_kw l) then_ λ (m, l₁) _.
      either m l₁ _ _
        (expression-Parsed lex f l₁ then_ λ (o, l₂) g.
          any (require lex Token.semicol "semicolon after return statement" l₂) then_ λ _ _.
          Post.returned (IfAny.node (returned-Parsed g, refl)))
        (Post.returned IfAny.null)

  break_statement-Parsed : GivesStmt (break_statement lex)
  unfolding break_statement plain
  break_statement-Parsed l = any (match lex Token.break_kw l) then_ λ (m, l₁) _.
      either_if m l₁ _ _ (Post.returned (IfAny.node (InStmt.break_, refl)))
        (Post.returned IfAny.null)

  module _ {statement : StmtNode I} (h : GivesStmt statement) (f : ℕ) where
    if_statement-Parsed : GivesStmt (if_statement lex statement f)
    unfolding if_statement plain
    if_statement-Parsed l = any (match lex Token.if_kw l) then_ λ (m, l₁) _.
        either m l₁ _ _
          (any (require lex Token.oparen "'(' after if" l₁) then_ λ (_, l₂) _.
            expression-Parsed lex f l₂ then_ λ (o, l₃) g.
            non_null-Gives lex _ l₃ g then_ λ (c, l₄) p.
            any (require lex Token.cparen "')' after if expression" l₄) then_ λ (_, l₅) _.
            h l₅ then_ λ (o', l₆) g'. non_null-Gives lex _ l₆ g' then_ λ (s, l₇) (i, full).
            any (match lex Token.else_kw l₇) then_ λ (e, l₈) _.
            either e l₈ _ _
              (h l₈ then_ λ (o'', l₉) g''. non_null-Gives lex _ l₉ g'' then_ λ (t, _) (j, full').
                Post.returned (IfAny.node (InStmt.if_else p i j, both_full full full')))
              (Post.returned (IfAny.node (InStmt.if_ p i, full))))
          (Post.returned IfAny.null)

    while_statement-Parsed : GivesStmt (while_statement lex statement f)
    unfolding while_statement plain
    while_statement-Parsed l = any (match lex Token.while_kw l) then_ λ (m, l₁) _.
        either m l₁ _ _
          (any (require lex Token.oparen "'(' after while statement" l₁) then_ λ (_, l₂) _.
            expression-Parsed lex f l₂ then_ λ (o, l₃) g.
            non_null-Gives lex _ l₃ g then_ λ (c, l₄) p.
            any (require lex Token.cparen "')' after while expression" l₄) then_ λ (_, l₅) _.
            h l₅ then_ λ (o', l₆) g'. non_null-Gives lex _ l₆ g' then_ λ (s, l₇) (i, full).
            Post.returned (IfAny.node (InStmt.while_ p i, full)))
          (Post.returned IfAny.null)

  module _ {statement : StmtNode I} (h : GivesStmt statement) where
    children-Parsed : (f : ℕ) → Gives AllSound (children lex statement f)
    unfolding children plain
    children-Parsed zero l = Post.unfinished
    children-Parsed (suc f) l = h l then_ λ (o, l₁) g.
        unless_null l₁ _ _ g (Post.returned (InChildren.nil, refl)) λ s (i, full).
          children-Parsed f l₁ then_ λ _ (is, full').
          Post.returned (InChildren.cons i is, both_full full full')

    pub block-Parsed : (f : ℕ) → Gives (IfAny AllSound) (block lex statement f)
    unfolding block
    block-Parsed f l = any (match lex Token.obrck l) then_ λ (m, l₁) _.
        either m l₁ _ _
          (children-Parsed f l₁ then_ λ (ss, l₂) is.
            any (require lex Token.cbrck "}" l₂) then_ λ _ _. Post.returned (IfAny.node is))
          (Post.returned IfAny.null)

    block_statement-Parsed : (f : ℕ) → GivesStmt (block_statement lex statement f)
    unfolding block_statement plain
    block_statement-Parsed f l = block-Parsed f l then_ λ (o, l₁) g.
        unless_null l₁ _ _ g (Post.returned IfAny.null)
          λ ss (is, full). Post.returned (IfAny.node (InStmt.block is, full))

  pub statement-Parsed : (f : ℕ) → GivesStmt (statement lex f)
  unfolding statement
  statement-Parsed zero l = Post.unfinished
  statement-Parsed (suc f) l =
      or_else-Parsed _ _ variabledeclaration-Parsed
        (or_else-Parsed _ _ (simple_stmt-Parsed f) (
          or_else-Parsed _ _ (return_statement-Parsed f) (
            or_else-Parsed _ _ break_statement-Parsed (
              or_else-Parsed _ _ (block_statement-Parsed (statement-Parsed f) f) (
                or_else-Parsed _ _ (if_statement-Parsed (statement-Parsed f) f)
                  (while_statement-Parsed (statement-Parsed f) f))))))
        l
