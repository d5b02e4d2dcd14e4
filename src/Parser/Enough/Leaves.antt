-- ===== src/Parser/Enough/Leaves.antt =====
-- parser/parser.cpp: `type`, `identifier` and `literal` end.
use jmm_llvm.Prelude.{[], ◌==◌, leb, Bytes}
use jmm_llvm.Prelude.{ℕ, refl, arith}
use jmm_llvm.Common.Token.{Token}
use jmm_llvm.Common.Outcome.{weaken, Outcome, ok, exit, Ensures, ◌⟫◌}
use jmm_llvm.Common.Outcome
use jmm_llvm.Lexer.Scan.{is_digit}
use jmm_llvm.Lexer.State.{Lexer}
use jmm_llvm.Parser.Base.{
  negated, skip_spaces, signed, unsigned, ulong_max, decimal, type, identifier, number, literal,
  stoul_int32,
}
use jmm_llvm.Parser.Enough.{◌∷◌, chosen, Source, weight, found, either_if, Behind, Ends, match-Ends}

module _ {I : Type 0} (s : Source I) where
  pub type-Ends : (l : Lexer I) → s.Good l.input → Ends s (λ o. weight (found o)) l (type s.lex l)
  unfolding type
  type-Ends l g = match-Ends s Token.bool_kw refl l g ⟫ λ (m, l₁) b.
      either_if (λ m. Behind s (weight m) l l₁) m l₁ _ _ b (λ b'. Ensures.returns b')
        λ (g₁, h₁). match-Ends s Token.int_kw refl l₁ g₁ ⟫ λ (m, l₂) b.
          either_if (λ m. Behind s (weight m) l₁ l₂) m l₂ _ _ b
            (λ (g', h'). Ensures.returns (g', omega arith))
            λ (g₂, h₂). match-Ends s Token.str refl l₂ g₂ ⟫ λ (m, l₃) b.
              either_if (λ m. Behind s (weight m) l₂ l₃) m l₃ _ _ b
                (λ (g', h'). Ensures.returns (g', omega arith))
                λ (g', h'). Ensures.returns (g', omega arith)

  pub identifier-Ends :
      (l : Lexer I) → s.Good l.input → Ends s (λ o. weight (found o)) l (identifier s.lex l)
  unfolding identifier
  identifier-Ends l g = match-Ends s Token.id refl l g ⟫ λ (m, l₁) b.
      either_if (λ m. Behind s (weight m) l l₁) m l₁ _ _ b (λ b'. Ensures.returns b')
        λ b'. Ensures.returns b'

  unsigned-Ensures : (s : Bytes) → Ensures (λ _. Unit {0}) (unsigned s)
  unfolding unsigned
  unsigned-Ensures [] = Ensures.exits
  unsigned-Ensures (c ∷ cs) =
      chosen (is_digit c)
        (λ _.
          chosen (leb (decimal 0 (c ∷ cs)) ulong_max) (λ _. Ensures.returns tt) λ _. Ensures.exits)
        λ _. Ensures.exits

  signed-Ensures : (s : Bytes) → Ensures (λ _. Unit {0}) (signed s)
  unfolding signed negated
  signed-Ensures [] = unsigned-Ensures []
  signed-Ensures (c ∷ cs) =
      chosen (c == b'-') (λ _. unsigned-Ensures cs ⟫ λ _ _. Ensures.returns tt)
        λ _. chosen (c == b'+') (λ _. unsigned-Ensures cs) λ _. unsigned-Ensures (c ∷ cs)

  stoul_int32-Ensures : (s : Bytes) → Ensures (λ _. Unit {0}) (stoul_int32 s)
  unfolding stoul_int32
  stoul_int32-Ensures s = signed-Ensures (skip_spaces s) ⟫ λ _ _. Ensures.returns tt

  number-Ends : (l : Lexer I) → s.Good l.input → Ends s (λ _. 0) l (number s.lex l)
  unfolding number
  number-Ends l g = converted ⟫ λ (n, l') b. Ensures.returns b
    where
      converted : Ends s (λ (_ : ℕ). 0) l (Outcome.◌>>=◌ (stoul_int32 l.curr_lexeme) λ n. ok (n, l))
      converted = stoul_int32-Ensures l.curr_lexeme ⟫ λ _ _. Ensures.returns (g, omega arith)

  pub literal-Ends : (l : Lexer I) → s.Good l.input → Ends s (λ _. 0) l (literal s.lex l)
  unfolding literal
  literal-Ends l g = match-Ends s Token.num refl l g ⟫ λ (m, l₁) b.
      either_if (λ m. Behind s (weight m) l l₁) m l₁ _ _ b
        (λ (g₁, h₁). weaken (λ _ (g', h'). (g', omega arith)) (number-Ends l₁ g₁))
        λ (g₁, h₁). match-Ends s Token.strlit refl l₁ g₁ ⟫ λ (m, l₂) b.
          either_if (λ m. Behind s (weight m) l₁ l₂) m l₂ _ _ b
            (λ (g', h'). Ensures.returns (g', omega arith))
            λ (g₂, h₂). match-Ends s Token.true_kw refl l₂ g₂ ⟫ λ (m, l₃) b.
              either_if (λ m. Behind s (weight m) l₂ l₃) m l₃ _ _ b
                (λ (g', h'). Ensures.returns (g', omega arith))
                λ (g₃, h₃). match-Ends s Token.false_kw refl l₃ g₃ ⟫ λ (m, l₄) b.
                  either_if (λ m. Behind s (weight m) l₃ l₄) m l₄ _ _ b
                    (λ (g', h'). Ensures.returns (g', omega arith))
                    λ (g', h'). Ensures.returns (g', omega arith)
