-- ===== src/Parser/Declarations.antt =====
-- parser/parser.cpp: the global declarations and `parse`.
use jmm_llvm.Prelude.{
  ℕ, zero, suc, true, false, Option, none, some, List, [], ◌∷◌, Bytes, if◌then◌else◌,
}
use jmm_llvm.Common.Token.{Token, tok_eq}
use jmm_llvm.Common.Types.{VType}
use jmm_llvm.Common.Outcome.{Outcome, ok, exit, running, main_with_parameters, expected_declaration}
use jmm_llvm.Common.Outcome
use jmm_llvm.Common.Ast.{ParamDecl, Decl, gvar_decl, func_decl, mfunc_decl, Program}
use jmm_llvm.Lexer.State.{Lexer, peek}
use jmm_llvm.Parser.Base.{
  Parser, ◌>>=◌, ◌>>◌, pure, line, match, require, non_null, type, identifier,
}
use jmm_llvm.Parser.Expressions.{stuck}
use jmm_llvm.Parser.Statements.{block, statement}

module _ {I : Type 0} (lex : Lexer I → Outcome (Lexer I)) where
  -- The lambda in `formalparameterlist`.
  unfoldable pub formalparameter : Parser I (Option ParamDecl)
  formalparameter = do
    vtype ← type lex
    elim vtype [
      | none ↦ pure none
      | some a ↦ do
        id ← identifier lex
        (_, name) ← non_null lex "identifier" id
        l ← line
        pure (some (record { line = l; id = name; type = a; symbol = none }))
    ]

  -- The loop, behind a parameter.
  unfoldable pub parameters : ℕ → ParamDecl → Parser I (List ParamDecl)
  parameters zero p = stuck
  parameters (suc f) p = do
    m ← match lex Token.comma
    elim m [
      | false ↦ pure (p ∷ [])
      | true ↦ do
        param ← formalparameter
        p' ← non_null lex "a parameter after comma" param
        ps ← parameters f p'
        pure (p ∷ ps)
    ]

  unfoldable pub formalparameterlist : ℕ → Parser I (List ParamDecl)
  formalparameterlist f = do
    param ← formalparameter
    elim param [ none ↦ pure [] | some p ↦ parameters f p ]

  unfoldable pub functiondeclarator : ℕ → Parser I (Option (List ParamDecl))
  functiondeclarator f = do
    m ← match lex Token.oparen
    elim m [
      | true ↦ do params ← formalparameterlist f; require lex Token.cparen "')'"; pure (some params)
      | false ↦ pure none
    ]

  -- `m_logger->error(m_lexer->line(), …, m_lexer->peek())`
  unfoldable pub fail_at {ℓ} : {A : Type ℓ} → (ℕ → Token → Outcome.Error) → Parser I A
  fail_at e l = Outcome.◌>>=◌ (peek lex l) λ (t, l'). exit (e l'.lineno t)

  unfoldable pub mainfunctiondeclaration : ℕ → Parser I Decl
  unfolding fail_at
  mainfunctiondeclaration f = do
    id ← identifier lex
    (l, name) ← non_null lex "identifier" id
    require lex Token.oparen "'('"
    m ← match lex Token.cparen
    elim m [
      | true ↦ do
        node ← block lex (statement lex f) f
        body ← non_null lex "block after main function declaration" node
        pure (mfunc_decl l name body none)
      | false ↦ fail_at main_with_parameters
    ]

  -- The part behind the declarator of a function.
  unfoldable pub function_body : ℕ → ℕ → Bytes → VType → List ParamDecl → Parser I Decl
  function_body f l name a params = do
    node ← block lex (statement lex f) f
    body ← non_null lex "function body" node
    pure (func_decl l name a params body none)

  -- `type id ( functiondeclaration | ; )`
  unfoldable pub typed_declaration : ℕ → VType → Parser I Decl
  unfolding function_body
  typed_declaration f a = do
    l ← line
    id ← identifier lex
    (_, name) ← non_null lex "identifier" id
    params ← functiondeclarator f
    elim params [
      | some ps ↦ function_body f l name a ps
      | none ↦ do
        require lex Token.semicol "semicolon after variable declaration"
        pure (gvar_decl l name a none)
    ]

  -- `void id functiondeclaration`
  unfoldable pub void_declaration : ℕ → Parser I Decl
  unfolding function_body
  void_declaration f = do
    l ← line
    id ← identifier lex
    (_, name) ← non_null lex "identifier" id
    params ← functiondeclarator f
    ps ← non_null lex "function declaration" params
    function_body f l name VType.void ps

  unfoldable pub globaldeclaration : ℕ → Parser I Decl
  unfolding typed_declaration void_declaration fail_at
  globaldeclaration f = do
    vtype ← type lex
    elim vtype [
      | some a ↦ typed_declaration f a
      | none ↦ do
        m ← match lex Token.void_kw
        if m then void_declaration f else do
          t ← peek lex
          if tok_eq t Token.id then mainfunctiondeclaration f else fail_at expected_declaration
    ]

  -- The loop of `start`.
  unfoldable pub start : ℕ → Parser I Program
  start zero = stuck
  start (suc f) = do
    t ← peek lex
    elim (tok_eq t Token.t_eof) [
      | true ↦ pure []
      | false ↦ do d ← globaldeclaration f; ds ← start f; pure (d ∷ ds)
    ]

  -- `parse` and `getAST`
  unfoldable pub parse : ℕ → Lexer I → Outcome Program
  parse f l = Outcome.◌>>=◌ (start f l) λ (p, _). ok p
