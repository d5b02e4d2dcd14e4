-- ===== src/Lexer/Tests.antt =====
-- Runs of the lexer on small inputs.
use jmm_llvm.Lexer.Symbols.{Closed, Open, lex-Closed, lex-Open}
use jmm_llvm.Lexer.Comments.{between, moved, skip_comment-newline, skip_comment-endless}
use jmm_llvm.Lexer.Words.{Passes, lex-word, lex-number}
use jmm_llvm.Lexer.Strings.{Escape, Spells, lex-string, str_loop-unclosed}
use jmm_llvm.Prelude.{arith, Bytes}
use jmm_llvm.Lexer.Reserved.{Names}
use jmm_llvm.Prelude.{ℕ, zero, suc, true, false, List, [], ◌∷◌, codes, bytes_eq, ◌≡◌, refl, String}
use jmm_llvm.Common.Token.{Token, tok_eq}
use jmm_llvm.Common.Outcome.{Outcome, ok, running, ◌>>=◌}
use jmm_llvm.Lexer.Stream
use jmm_llvm.Lexer.State.{peek, consume}
use jmm_llvm.Lexer.Scan.{
  CharLexer, is_identifier, is_numeric, is_str, str_loop, take_while, is_reserved, is_word,
}
use jmm_llvm.Lexer.Operators.{is_operator, is_special}
use jmm_llvm.Lexer.Lex.{lex, new_lexer, lex_loop, lex_round, skip_comment, other}

-- The tokens up to the end of the file, with their lines.
tokens_of : ℕ → CharLexer → Outcome (List (Token × ℕ))
tokens_of zero l = running
tokens_of (suc f) l = do
  (t, l') ← peek lex l
  elim (tok_eq t Token.t_eof) [
    | true ↦ ok []
    | false ↦ tokens_of f (consume l') >>= λ ts. ok ((t, l'.lineno) ∷ ts)
  ]

abbrev tokens : String → Outcome (List (Token × ℕ))
tokens s = tokens_of 40 (new_lexer (codes s) (record { warnings = 0 }))

tokens_sample :
    tokens "int x1;\n// c\n{ x1 = 10<=y++ /2; }"
    ≡ ok (
        (Token.int_kw, 1)
        ∷ (Token.id, 1)
        ∷ (Token.semicol, 1)
        ∷ (Token.obrck, 3)
        ∷ (Token.id, 3)
        ∷ (Token.assign, 3)
        ∷ (Token.num, 3)
        ∷ (Token.lteq, 3)
        ∷ (Token.id, 3)
        ∷ (Token.inc, 3)
        ∷ (Token.div, 3)
        ∷ (Token.num, 3)
        ∷ (Token.semicol, 3)
        ∷ (Token.cbrck, 3)
        ∷ [])
unfolding tokens_of peek consume lex lex_loop lex_round skip_comment is_identifier is_numeric is_str
    str_loop take_while is_reserved is_word is_operator is_special other tok_eq Stream.peek
    Stream.get Stream.unget bytes_eq
tokens_sample = refl

words_sample :
    tokens "true false boolean int void if else while break return str strs"
    ≡ ok (
        (Token.true_kw, 1)
        ∷ (Token.false_kw, 1)
        ∷ (Token.bool_kw, 1)
        ∷ (Token.int_kw, 1)
        ∷ (Token.void_kw, 1)
        ∷ (Token.if_kw, 1)
        ∷ (Token.else_kw, 1)
        ∷ (Token.while_kw, 1)
        ∷ (Token.break_kw, 1)
        ∷ (Token.return_kw, 1)
        ∷ (Token.str, 1)
        ∷ (Token.id, 1)
        ∷ [])
unfolding tokens_of peek consume lex lex_loop lex_round skip_comment is_identifier is_numeric is_str
    str_loop take_while is_reserved is_word is_operator is_special other tok_eq Stream.peek
    Stream.get Stream.unget bytes_eq
words_sample = refl

abbrev at_start : CharLexer
at_start = new_lexer [] (record { warnings = 0 })

lex-word_example :
    (t : Token) × (kept : Bytes) × Names (b'x' ∷ b'1' ∷ []) t kept
    × (lex (record at_start { input = between [] (b'x' ∷ b'1' ∷ b'=' ∷ b'2' ∷ []) })
        ≡ ok (record at_start {
          curr_lexeme = kept;
          curr_token = t;
          input = between (b'1' ∷ b'x' ∷ []) (b'=' ∷ b'2' ∷ []);
        }))
unfolding moved
lex-word_example =
    lex-word at_start b'x' (b'1' ∷ []) [] b'=' (b'2' ∷ []) refl
      (unfold Passes is_word in (refl, tt)) (unfold is_word in refl)

lex-number_example :
    lex (record at_start { input = between [] (b'4' ∷ b'2' ∷ b';' ∷ []) })
    ≡ ok (record at_start {
      curr_lexeme = b'4' ∷ b'2' ∷ [];
      curr_token = Token.num;
      input = between (b'2' ∷ b'4' ∷ []) (b';' ∷ []);
    })
unfolding moved
lex-number_example =
    lex-number at_start b'4' (b'2' ∷ []) [] b';' [] (unfold Passes in (refl, (refl, tt))) refl

-- "a\n"
lex-string_example :
    lex (record at_start { input = between [] (b'"' ∷ b'a' ∷ b'\\' ∷ b'n' ∷ b'"' ∷ b';' ∷ []) })
    ≡ ok (record at_start {
      curr_lexeme = b'a' ∷ 10 ∷ [];
      curr_token = Token.strlit;
      input = between (b'"' ∷ b'n' ∷ b'\\' ∷ b'a' ∷ b'"' ∷ []) (b';' ∷ []);
    })
unfolding moved
lex-string_example =
    lex-string
      (Spells.plain (omega arith) (omega arith) (omega arith)
        (Spells.escaped Escape.newline Spells.nothing))
      at_start [] (b';' ∷ [])

skip_comment-newline_example :
    skip_comment 3 (between [] (b'/' ∷ b'a' ∷ b'\n' ∷ b'b' ∷ []))
    ≡ ok (between (b'a' ∷ b'/' ∷ []) (b'\n' ∷ b'b' ∷ []))
unfolding moved
skip_comment-newline_example =
    skip_comment-newline (b'/' ∷ b'a' ∷ []) (b'b' ∷ []) [] 3 (omega arith, (omega arith, tt))
      (omega arith)

skip_comment-endless_example : skip_comment 100 (between [] (b'/' ∷ b'a' ∷ [])) ≡ running
skip_comment-endless_example =
    skip_comment-endless 100 (between [] (b'/' ∷ b'a' ∷ [])) (omega arith, (omega arith, tt))

str_loop-unclosed_example :
    str_loop 100 (record at_start { input = between [] (b'a' ∷ []) }) ≡ running
str_loop-unclosed_example =
    str_loop-unclosed 100 (record at_start { input = between [] (b'a' ∷ []) }) (omega arith, tt)
      (omega arith, tt) (omega arith, tt)

lex-Closed_example :
    lex (record at_start { input = between [] (b'<' ∷ b'=' ∷ b'1' ∷ []) })
    ≡ ok (record at_start {
      curr_lexeme = [];
      curr_token = Token.lteq;
      input = between (b'=' ∷ b'<' ∷ []) (b'1' ∷ []);
    })
unfolding moved
lex-Closed_example = lex-Closed Closed.lteq at_start [] (b'1' ∷ [])

lex-Open_example :
    lex (record at_start { input = between [] (b'<' ∷ b'1' ∷ []) })
    ≡ ok (record at_start {
      curr_lexeme = [];
      curr_token = Token.lt;
      input = between (b'<' ∷ []) (b'1' ∷ []);
    })
lex-Open_example = lex-Open Open.lt at_start [] b'1' [] (omega arith, (omega arith, tt))
