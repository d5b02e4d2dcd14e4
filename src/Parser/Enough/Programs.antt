-- ===== src/Parser/Enough/Programs.antt =====
-- parser/parser.cpp, the declarations and `parse`: the fuel that is enough for a whole program.
use jmm_llvm.Parser.Gives.{Post}
use jmm_llvm.Semantic.Program.{Every}
use jmm_llvm.Parser.Programs.{ParsedDecl, parse-Parsed}
use jmm_llvm.Common.Plain.{plains}
use jmm_llvm.Prelude.{◌≡◌, ℕ, zero, suc, ◌+◌, ◌<◌, List, Bytes, refl, arith}
use jmm_llvm.Common.Token.{Token, tok_eq}
use jmm_llvm.Common.Types.{VType}
use jmm_llvm.Common.Outcome.{Ensures-ne-running, Ensures-ne-fault, Outcome, Ensures, ◌⟫◌, weaken}
use jmm_llvm.Common.Outcome
use jmm_llvm.Common.Ast.{ParamDecl}
use jmm_llvm.Lexer.State.{Lexer}
use jmm_llvm.Parser.Statements.{block, statement}
use jmm_llvm.Parser.Declarations.{
  formalparameter, parameters, formalparameterlist, functiondeclarator, fail_at,
  mainfunctiondeclaration, function_body, typed_declaration, void_declaration, globaldeclaration,
  start, parse,
}
use jmm_llvm.Parser.Enough.Leaves.{identifier-Ends, type-Ends}
use jmm_llvm.Parser.Enough.{
  true, Source, size, Behind, Ends, since, weight, found, either, either_if, unless_null, peek_any,
  match-Ends, require-Ends, non_null-Ends,
}
use jmm_llvm.Parser.Enough.Statements.{block-Runs, statement-Runs}

module _ {I : Type 0} (s : Source I) where
  formalparameter-Ends :
      (l : Lexer I) → s.Good l.input → Ends s (λ o. weight (found o)) l (formalparameter s.lex l)
  unfolding formalparameter
  formalparameter-Ends l g = type-Ends s l g ⟫ λ (o, l₁) w.
      unless_null (λ b. Behind s (weight b) l l₁) o l₁ _ _ w (λ b'. Ensures.returns b')
        λ a (g₁, h₁). identifier-Ends s l₁ g₁ ⟫ λ (x, l₂) (g₂, h₂).
          non_null-Ends s _ 0 x l₁ l₂ (g₂, omega arith) ⟫ λ ((line, name), l₃) (g₃, h₃).
          Ensures.returns (g₃, omega arith)

  parameters-Ends :
      (f : ℕ) (p : ParamDecl) (l : Lexer I)
      → s.Good l.input
      → size s l < f
      → Ends s (λ _. 0) l (parameters s.lex f p l)
  unfolding parameters
  parameters-Ends zero p l g k = absurd (omega arith)
  parameters-Ends (suc f) p l g k = match-Ends s Token.comma refl l g ⟫ λ (b, l₁) w.
      either (λ b. Behind s (weight b) l l₁) b l₁ _ _ w
        (λ (g₁, h₁). formalparameter-Ends l₁ g₁ ⟫ λ (o, l₂) (g₂, h₂).
          non_null-Ends s _ 0 o l₁ l₂ (g₂, omega arith) ⟫ λ (p', l₃) (g₃, h₃).
          parameters-Ends f p' l₃ g₃ (omega arith) ⟫ λ (ps, l₄) (g₄, h₄).
          Ensures.returns (g₄, omega arith))
        λ (g₁, h₁). Ensures.returns (g₁, omega arith)

  formalparameterlist-Ends :
      (f : ℕ) (l : Lexer I)
      → s.Good l.input
      → size s l < f
      → Ends s (λ _. 0) l (formalparameterlist s.lex f l)
  unfolding formalparameterlist
  formalparameterlist-Ends f l g k = formalparameter-Ends l g ⟫ λ (o, l₁) w.
      unless_null (λ b. Behind s (weight b) l l₁) o l₁ _ _ w (λ b'. Ensures.returns b')
        λ p (g₁, h₁). since s 1 l l₁ (g₁, h₁) (parameters-Ends f p l₁ g₁ (omega arith))

  functiondeclarator-Ends :
      (f : ℕ) (l : Lexer I)
      → s.Good l.input
      → size s l < f
      → Ends s (λ _. 0) l (functiondeclarator s.lex f l)
  unfolding functiondeclarator
  functiondeclarator-Ends f l g k = match-Ends s Token.oparen refl l g ⟫ λ (b, l₁) w.
      either (λ b. Behind s (weight b) l l₁) b l₁ _ _ w
        (λ (g₁, h₁). formalparameterlist-Ends f l₁ g₁ (omega arith) ⟫ λ (ps, l₂) (g₂, h₂).
          require-Ends s Token.cparen _ refl l₂ g₂ ⟫ λ (_, l₃) (g₃, h₃).
          Ensures.returns (g₃, omega arith))
        λ (g₁, h₁). Ensures.returns (g₁, omega arith)

  fail_at-Ends :
      {A : Type 0} {Q : A × Lexer I → Type 0} (e : ℕ → Token → Outcome.Error) (l : Lexer I)
      → s.Good l.input
      → Ensures Q (fail_at s.lex e l)
  unfolding fail_at
  fail_at-Ends e l g = peek_any s l g ⟫ λ _ _. Ensures.exits

  -- With fuel for each token that the lexer can still give and three units more.
  module _ (f : ℕ) (l : Lexer I) (g : s.Good l.input) (k : size s l + 3 < f) where
    body-Ends : Ends s (λ _. 0) l (block s.lex (statement s.lex f) f l)
    body-Ends =
        weaken (λ _ (g', h'). (g', omega arith))
          (block-Runs s (statement-Runs s f (size s l) (omega arith)) f (omega arith) l g
            (omega arith))

    function_body-Ends :
        (line : ℕ) (name : Bytes) (a : VType) (ps : List ParamDecl)
        → Ends s (λ _. 0) l (function_body s.lex f line name a ps l)
    unfolding function_body
    function_body-Ends line name a ps = body-Ends ⟫ λ (o, l₁) (g₁, h₁).
        non_null-Ends s _ 0 o l l₁ (g₁, omega arith) ⟫ λ (b, l₂) b'. Ensures.returns b'

  mainfunctiondeclaration-Ends :
      (f : ℕ) (l : Lexer I)
      → s.Good l.input
      → size s l + 3 < f
      → Ends s (λ _. 1) l (mainfunctiondeclaration s.lex f l)
  unfolding mainfunctiondeclaration
  mainfunctiondeclaration-Ends f l g k = identifier-Ends s l g ⟫ λ (x, l₁) (g₁, h₁).
      non_null-Ends s _ 1 x l l₁ (g₁, omega arith) ⟫ λ ((line, name), l₂) (g₂, h₂).
      require-Ends s Token.oparen _ refl l₂ g₂ ⟫ λ (_, l₃) (g₃, h₃).
      match-Ends s Token.cparen refl l₃ g₃ ⟫ λ (b, l₄) w.
      either (λ b. Behind s (weight b) l₃ l₄) b l₄ _ _ w
        (λ (g₄, h₄). body-Ends f l₄ g₄ (omega arith) ⟫ λ (o, l₅) (g₅, h₅).
          non_null-Ends s _ 0 o l₄ l₅ (g₅, omega arith) ⟫ λ (body, l₆) (g₆, h₆).
          Ensures.returns (g₆, omega arith))
        λ (g₄, h₄). fail_at-Ends _ l₄ g₄

  typed_declaration-Ends :
      (f : ℕ) (a : VType) (l : Lexer I)
      → s.Good l.input
      → size s l + 3 < f
      → Ends s (λ _. 0) l (typed_declaration s.lex f a l)
  unfolding typed_declaration
  typed_declaration-Ends f a l g k = identifier-Ends s l g ⟫ λ (x, l₁) (g₁, h₁).
      non_null-Ends s _ 0 x l l₁ (g₁, omega arith) ⟫ λ ((line, name), l₂) (g₂, h₂).
      functiondeclarator-Ends f l₂ g₂ (omega arith) ⟫ λ (ps, l₃) (g₃, h₃).
      unless_null (λ _. Behind s 0 l₂ l₃) ps l₃ _ _ (g₃, h₃)
        (λ _. require-Ends s Token.semicol _ refl l₃ g₃ ⟫ λ (_, l₄) (g₄, h₄).
          Ensures.returns (g₄, omega arith))
        λ params _.
          since s 0 l l₃ (g₃, omega arith)
            (function_body-Ends f l₃ g₃ (omega arith) l.lineno name a params)

  void_declaration-Ends :
      (f : ℕ) (l : Lexer I)
      → s.Good l.input
      → size s l + 3 < f
      → Ends s (λ _. 0) l (void_declaration s.lex f l)
  unfolding void_declaration
  void_declaration-Ends f l g k = identifier-Ends s l g ⟫ λ (x, l₁) (g₁, h₁).
      non_null-Ends s _ 0 x l l₁ (g₁, omega arith) ⟫ λ ((line, name), l₂) (g₂, h₂).
      functiondeclarator-Ends f l₂ g₂ (omega arith) ⟫ λ (o, l₃) (g₃, h₃).
      non_null-Ends s _ 0 o l₂ l₃ (g₃, omega arith) ⟫ λ (ps, l₄) (g₄, h₄).
      since s 0 l l₄ (g₄, omega arith)
        (function_body-Ends f l₄ g₄ (omega arith) l.lineno name VType.void ps)

  globaldeclaration-Ends :
      (f : ℕ) (l : Lexer I)
      → s.Good l.input
      → size s l + 3 < f
      → Ends s (λ _. 1) l (globaldeclaration s.lex f l)
  unfolding globaldeclaration
  globaldeclaration-Ends f l g k = type-Ends s l g ⟫ λ (o, l₁) w.
      unless_null (λ b. Behind s (weight b) l l₁) o l₁ _ _ w
        (λ (g₁, h₁). match-Ends s Token.void_kw refl l₁ g₁ ⟫ λ (b, l₂) w'.
          either_if (λ b. Behind s (weight b) l₁ l₂) b l₂ _ _ w'
            (λ (g₂, h₂).
              weaken (λ _ (g', h'). (g', omega arith))
                (void_declaration-Ends f l₂ g₂ (omega arith)))
            λ (g₂, h₂). peek_any s l₂ g₂ ⟫ λ (t, l₃) (g₃, h₃).
              either_if (λ _. Unit {0}) (tok_eq t Token.id) l₃ _ _ tt
                (λ _.
                  weaken (λ _ (g', h'). (g', omega arith))
                    (mainfunctiondeclaration-Ends f l₃ g₃ (omega arith)))
                λ _. fail_at-Ends _ l₃ g₃)
        λ a (g₁, h₁).
          weaken (λ _ (g', h'). (g', omega arith)) (typed_declaration-Ends f a l₁ g₁ (omega arith))

  pub start-Ends :
      (f : ℕ) (l : Lexer I)
      → s.Good l.input
      → size s l + 4 < f
      → Ends s (λ _. 0) l (start s.lex f l)
  unfolding start
  start-Ends zero l g k = absurd (omega arith)
  start-Ends (suc f) l g k = peek_any s l g ⟫ λ (t, l₁) (g₁, h₁).
      either (λ _. Unit {0}) (tok_eq t Token.t_eof) l₁ _ _ tt (λ _. Ensures.returns (g₁, h₁))
        λ _. globaldeclaration-Ends f l₁ g₁ (omega arith) ⟫ λ (d, l₂) (g₂, h₂).
          start-Ends f l₂ g₂ (omega arith) ⟫ λ (ds, l₃) (g₃, h₃). Ensures.returns (g₃, omega arith)

  both :
      {A : Type 0} {P : A → Type 0} {r : Outcome A}
      → Ensures (λ _. Unit {0}) r
      → Post P r
      → Ensures P r
  both h (Post.returned p) = Ensures.returns p
  both h Post.ended = Ensures.exits
  both h Post.undefined = absurd (Ensures-ne-fault h refl)
  both h Post.unfinished = absurd (Ensures-ne-running h refl)

  -- With five units of fuel more than the tokens that the lexer can still give, `parse` ends without
  -- undefined behaviour: it exits with an error or returns a program with no symbol set, no variable and
  -- no parameter of type `void`, integer literals below 2 ^ 32 and unary operators in its unary nodes. The
  -- lexer must go on from every good input and come closer to the end of the file with each other token.
  pub parse-Ends :
      (f : ℕ) (l : Lexer I)
      → s.Good l.input
      → size s l + 4 < f
      → Ensures (λ ds. Every ParsedDecl ds × (plains ds ≡ true)) (parse s.lex f l)
  unfolding parse
  parse-Ends f l g k =
      both (start-Ends f l g k ⟫ λ _ _. Ensures.returns tt) (parse-Parsed s.lex f l)
