-- ===== src/Parser/Programs.antt =====
-- The programs that the parser builds: what `parse` returns, if it returns.
use jmm_llvm.Common.Void.{not_void}
use jmm_llvm.Common.Plain.{plain_decl, plain_param, plain_params, plains, both_full}
use jmm_llvm.Parser.Trees.{type-Gives}
use jmm_llvm.Prelude.{◌≡◌, refl, true, ℕ, zero, suc, none, List, Bytes}
use jmm_llvm.Common.Types.{VType}
use jmm_llvm.Common.Token.{Token, tok_eq}
use jmm_llvm.Common.Outcome.{Outcome}
use jmm_llvm.Common.Outcome
use jmm_llvm.Common.Ast.{Program, Children, ParamDecl, Decl, gvar_decl, func_decl, mfunc_decl}
use jmm_llvm.Lexer.State.{Lexer, peek}
use jmm_llvm.Semantic.Shape.{InChildren}
use jmm_llvm.Semantic.Program.{Every}
use jmm_llvm.Parser.Base.{match, require, identifier}
use jmm_llvm.Parser.Declarations.{
  formalparameterlist, parameters, formalparameter, mainfunctiondeclaration, functiondeclarator,
  globaldeclaration, start, parse, function_body, typed_declaration, void_declaration, fail_at,
}
use jmm_llvm.Parser.Gives.{
  IfAny, Post, Gives, any, null_or_any, either, either_if, unless_null, non_null-Gives, ◌then_◌,
}
use jmm_llvm.Parser.Nodes.{Parsed}
use jmm_llvm.Parser.Trees.{block-Parsed, statement-Parsed}

-- No declaration has a symbol, and the expressions of each body are as `expression` builds them.
pub data ParsedDecl : Decl → Type 0 where
  gvar : {l : ℕ} {x : Bytes} {a : VType} → ParsedDecl (gvar_decl l x a none)
  func :
      {l : ℕ} {x : Bytes} {a : VType} {ps : List ParamDecl} {body : Children}
      → InChildren Parsed body
      → ParsedDecl (func_decl l x a ps body none)
  main :
      {l : ℕ} {x : Bytes} {body : Children}
      → InChildren Parsed body
      → ParsedDecl (mfunc_decl l x body none)

-- A declaration from the parser; none of its variables and parameters is `void` or has a symbol.
abbrev SoundDecl : Decl → Type 0
SoundDecl d = ParsedDecl d × (plain_decl d ≡ true)

module _ {I : Type 0} (lex : Lexer I → Outcome (Lexer I)) where
  abbrev SoundProgram : Program → Type 0
  SoundProgram ds = Every ParsedDecl ds × (plains ds ≡ true)

  formalparameter-Plain : Gives (IfAny (λ p. plain_param p ≡ true)) (formalparameter lex)
  unfolding formalparameter
  formalparameter-Plain l = type-Gives lex l then_ λ (o, l₁) t.
      unless_null l₁ _ _ t (Post.returned IfAny.null) λ a full.
        any (identifier lex l₁) then_ λ (x, l₂) _.
        non_null-Gives lex _ l₂ (null_or_any x) then_ λ _ _.
        Post.returned (IfAny.node (both_full full refl))

  parameters-Plain :
      (f : ℕ) (p : ParamDecl)
      → plain_param p ≡ true
      → Gives (λ ps. plain_params ps ≡ true) (parameters lex f p)
  unfolding parameters plain_params
  parameters-Plain zero p h l = Post.unfinished
  parameters-Plain (suc f) p h l = any (match lex Token.comma l) then_ λ (m, l₁) _.
      either m l₁ _ _
        (formalparameter-Plain l₁ then_ λ (o, l₂) g. non_null-Gives lex _ l₂ g then_ λ (p', l₃) h'.
          parameters-Plain f p' h' l₃ then_ λ _ hs. Post.returned (both_full h hs))
        (Post.returned (both_full h refl))

  formalparameterlist-Plain :
      (f : ℕ) → Gives (λ ps. plain_params ps ≡ true) (formalparameterlist lex f)
  unfolding formalparameterlist plain_params
  formalparameterlist-Plain f l = formalparameter-Plain l then_ λ (o, l₁) g.
      unless_null l₁ _ _ g (Post.returned refl) λ p h. parameters-Plain f p h l₁

  functiondeclarator-Plain :
      (f : ℕ) → Gives (IfAny (λ ps. plain_params ps ≡ true)) (functiondeclarator lex f)
  unfolding functiondeclarator
  functiondeclarator-Plain f l = any (match lex Token.oparen l) then_ λ (m, l₁) _.
      either m l₁ _ _
        (formalparameterlist-Plain f l₁ then_ λ (ps, l₂) h.
          any (require lex Token.cparen _ l₂) then_ λ _ _. Post.returned (IfAny.node h))
        (Post.returned IfAny.null)

  fail_at-Gives : (e : ℕ → Token → Outcome.Error) → Gives SoundDecl (fail_at lex e)
  unfolding fail_at
  fail_at-Gives e l = any (peek lex l) then_ λ _ _. Post.ended

  mainfunctiondeclaration-Parsed : (f : ℕ) → Gives SoundDecl (mainfunctiondeclaration lex f)
  unfolding mainfunctiondeclaration plain_decl
  mainfunctiondeclaration-Parsed f l = any (identifier lex l) then_ λ (x, l₁) _.
      non_null-Gives lex _ l₁ (null_or_any x) then_ λ ((line, name), l₂) _.
      any (require lex Token.oparen "'('" l₂) then_ λ (_, l₃) _.
      any (match lex Token.cparen l₃) then_ λ (m, l₄) _.
      either m l₄ _ _
        (block-Parsed lex (statement-Parsed lex f) f l₄ then_ λ (o, l₅) g.
          non_null-Gives lex _ l₅ g then_ λ (body, _) (i, full).
          Post.returned (ParsedDecl.main i, both_full full refl))
        (fail_at-Gives _ l₄)

  function_body-Parsed :
      (f l : ℕ) (name : Bytes) (a : VType) (ps : List ParamDecl)
      → plain_params ps ≡ true
      → Gives SoundDecl (function_body lex f l name a ps)
  unfolding function_body plain_decl
  function_body-Parsed f line name a ps h l =
      block-Parsed lex (statement-Parsed lex f) f l then_ λ (o, l₁) g.
      non_null-Gives lex _ l₁ g then_ λ (body, _) (i, full).
      Post.returned (ParsedDecl.func i, both_full (both_full h full) refl)

  typed_declaration-Parsed :
      (f : ℕ) (a : VType) → not_void a ≡ true → Gives SoundDecl (typed_declaration lex f a)
  unfolding typed_declaration plain_decl
  typed_declaration-Parsed f a full l = any (identifier lex l) then_ λ (x, l₁) _.
      non_null-Gives lex _ l₁ (null_or_any x) then_ λ ((_, name), l₂) _.
      functiondeclarator-Plain f l₂ then_ λ (ps, l₃) g.
      unless_null l₃ _ _ g
        (any (require lex Token.semicol "semicolon after variable declaration" l₃) then_ λ _ _.
          Post.returned (ParsedDecl.gvar, both_full full refl))
        λ params h. function_body-Parsed f l.lineno name a params h l₃

  void_declaration-Parsed : (f : ℕ) → Gives SoundDecl (void_declaration lex f)
  unfolding void_declaration
  void_declaration-Parsed f l = any (identifier lex l) then_ λ (x, l₁) _.
      non_null-Gives lex _ l₁ (null_or_any x) then_ λ ((_, name), l₂) _.
      functiondeclarator-Plain f l₂ then_ λ (o, l₃) g. non_null-Gives lex _ l₃ g then_ λ (ps, l₄) h.
      function_body-Parsed f l.lineno name VType.void ps h l₄

  globaldeclaration-Parsed : (f : ℕ) → Gives SoundDecl (globaldeclaration lex f)
  unfolding globaldeclaration
  globaldeclaration-Parsed f l = type-Gives lex l then_ λ (o, l₁) t.
      unless_null l₁ _ _ t
        (any (match lex Token.void_kw l₁) then_ λ (m, l₂) _.
          either_if m l₂ _ _ (void_declaration-Parsed f l₂) (
            any (peek lex l₂) then_ λ (t, l₃) _.
            either_if (tok_eq t Token.id) l₃ _ _ (mainfunctiondeclaration-Parsed f l₃)
              (fail_at-Gives _ l₃)))
        λ a full. typed_declaration-Parsed f a full l₁

  start-Parsed : (f : ℕ) → Gives SoundProgram (start lex f)
  unfolding start plains
  start-Parsed zero l = Post.unfinished
  start-Parsed (suc f) l = any (peek lex l) then_ λ (t, l₁) _.
      either (tok_eq t Token.t_eof) l₁ _ _ (Post.returned (tt, refl)) (
        globaldeclaration-Parsed f l₁ then_ λ (d, l₂) (p, full).
        start-Parsed f l₂ then_ λ _ (ps, fulls). Post.returned ((p, ps), both_full full fulls))

  -- Whatever the tokens and the fuel, a program that `parse` returns has no symbol set, neither in a
  -- declaration or a parameter nor in an expression, no variable and no parameter of type `void`, integer
  -- literals below 2 ^ 32 and unary operators alone in its unary nodes; the right-hand side of an
  -- assignment may be missing.
  pub parse-Parsed :
      (f : ℕ) (l : Lexer I) → Post (λ ds. Every ParsedDecl ds × (plains ds ≡ true)) (parse lex f l)
  unfolding parse
  parse-Parsed f l = start-Parsed f l then_ λ _ ps. Post.returned ps
