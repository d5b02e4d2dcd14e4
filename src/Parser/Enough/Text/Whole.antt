-- ===== src/Parser/Enough/Text/Whole.antt =====
-- lexer/lexer.cpp as a source of tokens for parser/parser.cpp: on texts without string literals whose last
-- line ends, `lex` goes on, and so the parser ends.
use jmm_llvm.Prelude.{
  ◌≤◌, ℕ, zero, suc, ◌+◌, ◌≤◌, ◌<◌, Bool, true, false, [], ◌∷◌, Bytes, ◌≡◌, arith, length,
}
use jmm_llvm.Common.Outcome.{Outcome, Ensures, returns, ◌⟫◌, weaken}
use jmm_llvm.Lexer.Stream.{Stream}
use jmm_llvm.Lexer.Stream
use jmm_llvm.Lexer.Scan.{CharLexer}
use jmm_llvm.Lexer.Operators.{
  is_special, is_operator, is_operator, is_special, operator_of, special_of,
}
use jmm_llvm.Lexer.Lex.{continue, lex_round, lex_loop, lex, dispatch, other, unknown}
use jmm_llvm.Parser.Enough.{Source, pending}
use jmm_llvm.Parser.Enough.Programs.{parse-Ends}
use jmm_llvm.Semantic.Program.{Every}
use jmm_llvm.Parser.Programs.{ParsedDecl}
use jmm_llvm.Common.Plain.{plains}
use jmm_llvm.Parser.Declarations.{parse}
use jmm_llvm.Lexer.Lex.{new_lexer}
use jmm_llvm.Common.Outcome.{Logger}
use jmm_llvm.Parser.Enough.Text.Round.{Round, dispatch-Round}
use jmm_llvm.Parser.Enough.Text.{Text, Shrinks, stream}

-- At the end of the file, or of a stream that has failed, the round gives the token of the end.
lex_round-Round :
    (f : ℕ) (l : CharLexer) (before rest : Bytes) (d : Bool)
    → Text rest
    → length rest < f
    → Ensures
        (Round (stream before rest false d))
        (lex_round f (record l { input = stream before rest false d }))
unfolding lex_round dispatch other unknown is_special special_of is_operator operator_of Stream.peek
    Stream.get Stream.unget
lex_round-Round f l before rest true t h = returns (t, omega arith)
lex_round-Round f l before [] false t h = returns (t, omega arith)
lex_round-Round f l before (c ∷ cs) false t h =
    dispatch-Round f (record l { curr_lexeme = [] }) before c cs t h

-- What `lex` leaves of a text.
abbrev TokenTaken : Stream → CharLexer → Type 0
TokenTaken s l = Text l.input.rest × (pending l.curr_token + length l.input.rest ≤ length s.rest)

go_on :
    (s : Stream) (again : CharLexer → Outcome CharLexer) (r : Bool × CharLexer)
    → Round s r
    → ((l : CharLexer) → Shrinks 1 s l.input → Ensures (TokenTaken s) (again l))
    → Ensures (TokenTaken s) (continue again r)
go_on s again (true, l) r k = returns r
go_on s again (false, l) r k = k l r

lex_loop-Ensures :
    (f : ℕ) (l : CharLexer) (before rest : Bytes) (e d : Bool)
    → Text rest
    → length rest + 1 < f
    → Ensures
        (TokenTaken (stream before rest e d))
        (lex_loop f (record l { input = stream before rest e d }))
unfolding lex_loop
lex_loop-Ensures zero l before rest e d t h = absurd (omega arith)
lex_loop-Ensures (suc f) l before rest true d t h = returns (t, omega arith)
lex_loop-Ensures (suc f) l before rest false d t h =
    lex_round-Round f l before rest d t (omega arith) ⟫ λ r k.
    go_on (stream before rest false d) (lex_loop f) r k λ l' (t', b).
      weaken (λ _ (t'', b'). (t'', omega arith))
        (lex_loop-Ensures f l' l'.input.before l'.input.rest l'.input.eofbit l'.input.failbit t'
          (omega arith))

-- On a text without a quote whose last line ends, `lex` returns, or ends the process with an error: it
-- neither faults nor runs on, and each token but the end of the file takes a byte at least.
pub lex-Text :
    (l : CharLexer)
    → Text l.input.rest
    → Ensures
        (λ (l' : CharLexer).
          Text l'.input.rest × (pending l'.curr_token + length l'.input.rest ≤ length l.input.rest))
        (lex l)
unfolding lex
lex-Text l t =
    lex_loop-Ensures _ l l.input.before l.input.rest l.input.eofbit l.input.failbit t (omega arith)

-- The lexer as a source of tokens.
abbrev pub char_source : Source Stream
char_source = record {
  lex = lex;
  Good = λ s. Text s.rest;
  left = λ s. length s.rest;
  advances = lex-Text;
}

-- A file without string literals whose last line ends is parsed, with five units of fuel more than it
-- has bytes: the parser on the lexer returns a program with no symbol set, no variable and no parameter
-- of type `void`, integer literals below 2 ^ 32 and unary operators in its unary nodes, or ends the
-- process with an error.
pub parse-Text :
    (file : Bytes) (g : Logger) (f : ℕ)
    → Text file
    → length file + 4 < f
    → Ensures (λ ds. Every ParsedDecl ds × (plains ds ≡ true)) (parse lex f (new_lexer file g))
parse-Text file g f t h = parse-Ends char_source f (new_lexer file g) t h
