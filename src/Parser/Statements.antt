-- ===== src/Parser/Statements.antt =====
-- parser/parser.cpp: the statements. Those that hold statements take the parser of these;
-- `statement` closes the cycle on fuel.
use jmm_llvm.Prelude.{ℕ, zero, suc, true, false, Option, none, some, if◌then◌else◌}
use jmm_llvm.Common.Token.{Token}
use jmm_llvm.Common.Outcome.{Outcome}
use jmm_llvm.Common.Ast.{
  Stmt, Children, if_stmt, if_else_stmt, while_stmt, return_stmt, break_stmt, block_stmt, expr_stmt,
  null_stmt, var_decl, no_children, child,
}
use jmm_llvm.Lexer.State.{Lexer}
use jmm_llvm.Parser.Base.{
  Parser, ◌>>=◌, ◌>>◌, pure, line, match, require, non_null, type, identifier,
}
use jmm_llvm.Parser.Expressions.{stuck, expression}

abbrev pub StmtNode : Type 0 → Type 0
StmtNode I = Parser I (Option Stmt)

-- `if (!node) node = q();`
abbrev pub or_else : {I : Type 0} → StmtNode I → StmtNode I → StmtNode I
or_else p q = p >>= λ node. elim node [ some s ↦ pure (some s) | none ↦ q ]

module _ {I : Type 0} (lex : Lexer I → Outcome (Lexer I)) where
  unfoldable pub variabledeclaration : StmtNode I
  variabledeclaration = do
    vtype ← type lex
    elim vtype [
      | none ↦ pure none
      | some a ↦ do
        id ← identifier lex
        (l, name) ← non_null lex "identifier in a variable declaration after type" id
        require lex Token.semicol "semicolon after variable declaration"
        pure (some (var_decl l name a none))
    ]

  unfoldable pub expr_statement : ℕ → StmtNode I
  expr_statement f = do
    node ← expression lex f
    elim node [
      | none ↦ pure none
      | some e ↦ do require lex Token.semicol "semicolon"; pure (some (expr_stmt e))
    ]

  unfoldable pub simple_stmt : ℕ → StmtNode I
  simple_stmt f = do
    m ← match lex Token.semicol
    if m then (do l ← line; pure (some (null_stmt l))) else expr_statement f

  unfoldable pub return_statement : ℕ → StmtNode I
  return_statement f = do
    m ← match lex Token.return_kw
    elim m [
      | true ↦ do
        l ← line
        e ← expression lex f
        require lex Token.semicol "semicolon after return statement"
        pure (some (return_stmt l e))
      | false ↦ pure none
    ]

  unfoldable pub break_statement : StmtNode I
  break_statement = do
    m ← match lex Token.break_kw
    if m then (do l ← line; pure (some (break_stmt l))) else pure none

  unfoldable pub if_statement : StmtNode I → ℕ → StmtNode I
  if_statement statement f = do
    m ← match lex Token.if_kw
    elim m [
      | true ↦ do
        l ← line
        require lex Token.oparen "'(' after if"
        node ← expression lex f
        c ← non_null lex "expression in if statement condition" node
        require lex Token.cparen "')' after if expression"
        body ← statement
        s ← non_null lex "body after if" body
        e ← match lex Token.else_kw
        elim e [
          | true ↦ do
            other ← statement
            t ← non_null lex "body after else" other
            pure (some (if_else_stmt l c s t))
          | false ↦ pure (some (if_stmt l c s))
        ]
      | false ↦ pure none
    ]

  unfoldable pub while_statement : StmtNode I → ℕ → StmtNode I
  while_statement statement f = do
    m ← match lex Token.while_kw
    elim m [
      | true ↦ do
        l ← line
        require lex Token.oparen "'(' after while statement"
        node ← expression lex f
        c ← non_null lex "an expression after while" node
        require lex Token.cparen "')' after while expression"
        body ← statement
        s ← non_null lex "a statement after while" body
        pure (some (while_stmt l c s))
      | false ↦ pure none
    ]

  -- The loop of `block`.
  unfoldable pub children : StmtNode I → ℕ → Parser I Children
  children statement zero = stuck
  children statement (suc f) = do
    node ← statement
    elim node [ none ↦ pure no_children | some s ↦ do ss ← children statement f; pure (child s ss) ]

  unfoldable pub block : StmtNode I → ℕ → Parser I (Option Children)
  block statement f = do
    m ← match lex Token.obrck
    elim m [
      | true ↦ do body ← children statement f; require lex Token.cbrck "}"; pure (some body)
      | false ↦ pure none
    ]

  unfoldable pub block_statement : StmtNode I → ℕ → StmtNode I
  block_statement statement f = do
    body ← block statement f
    elim body [ some ss ↦ pure (some (block_stmt ss)) | none ↦ pure none ]

  unfoldable pub statement : ℕ → StmtNode I
  statement zero = stuck
  statement (suc f) = or_else variabledeclaration (
      or_else (simple_stmt f) (
        or_else (return_statement f) (
          or_else break_statement (
            or_else (block_statement (statement f) f)
              (or_else (if_statement (statement f) f) (while_statement (statement f) f))))))
