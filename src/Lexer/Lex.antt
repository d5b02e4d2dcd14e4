-- ===== src/Lexer/Lex.antt =====
-- lexer/lexer.cpp: `lex`. The outer loop takes fuel, and each round gives its inner loop what is left.
use jmm_llvm.Prelude.{
  ℕ, zero, suc, ◌+◌, Bool, true, false, Option, none, some, [], Bytes, ◌==◌, ◌||◌, if◌then◌else◌,
  length,
}
use jmm_llvm.Common.Token.{Token}
use jmm_llvm.Common.Outcome.{Outcome, ok, running, ◌>>=◌, Logger}
use jmm_llvm.Lexer.Stream.{Stream, open_stream}
use jmm_llvm.Lexer.Stream
use jmm_llvm.Lexer.Scan.{
  CharLexer, to_char, is_space, is_digit, is_alpha, set_token, is_identifier, is_numeric, is_str,
  warn,
}
use jmm_llvm.Lexer.Operators.{is_operator, is_special}

-- `m_input.peek() == c`, on the `int`
abbrev is_byte : ℕ → Option ℕ → Bool
is_byte c none = false
is_byte c (some d) = d == c

-- `while (m_input.peek() != '\n') m_input.get();`
unfoldable pub skip_comment : ℕ → Stream → Outcome Stream
skip_comment zero s = running
skip_comment (suc f) s =
    let (c, s') = Stream.peek s in
    elim (is_byte b'\n' c) [ true ↦ ok s' | false ↦ skip_comment f (Stream.get s').1 ]

-- `true`: `lex` returns. `false`: the loop goes on.
abbrev returned : Outcome CharLexer → Outcome (Bool × CharLexer)
returned m = m >>= λ l. ok (true, l)

unfoldable pub skip_byte : CharLexer → CharLexer
skip_byte l = record l { input = (Stream.get l.input).1 }

-- The branch for '/': a comment or the operator.
unfoldable pub slash : ℕ → CharLexer → Outcome (Bool × CharLexer)
slash f l =
    let (_, s) = Stream.get l.input in
    let (d, s') = Stream.peek s in
    if is_byte b'/' d
    then (skip_comment f s' >>= λ s''. ok (false, record l { input = s'' }))
    else ok (true, (is_operator (record l { input = Stream.unget s' })).1)

-- The last three branches, behind `isSpecial` and `isOperator`.
unfoldable pub unknown : ℕ → CharLexer → Outcome (Bool × CharLexer)
unknown chr l =
    if chr == 255
    then ok (true, set_token Token.t_eof l)
    else do l' ← warn l; ok (false, skip_byte l')

unfoldable pub other : ℕ → CharLexer → Outcome (Bool × CharLexer)
unfolding unknown
other chr l =
    let (special, l₁) = is_special l in
    let (operator, l₂) = is_operator l₁ in
    if special then ok (true, l₁) else if operator then ok (true, l₂) else unknown chr l₂

-- The ladder on the byte `chr` that was peeked.
unfoldable pub dispatch : ℕ → ℕ → CharLexer → Outcome (Bool × CharLexer)
unfolding slash skip_byte
dispatch f chr l =
    if chr == b'\n'
    then ok (false, skip_byte (record l { lineno = l.lineno + 1 }))
    else if is_space chr
    then ok (false, skip_byte l)
    else if is_alpha chr || chr == b'_'
    then returned (is_identifier f l)
    else if is_digit chr
    then returned (is_numeric f l)
    else if chr == b'"'
    then returned (is_str f l)
    else if chr == b'/'
    then slash f l
    else other chr l

-- One round of the loop of `lex`.
unfoldable pub lex_round : ℕ → CharLexer → Outcome (Bool × CharLexer)
unfolding dispatch
lex_round f l =
    let (c, s) = Stream.peek l.input in
    dispatch f (to_char c) (record l { curr_lexeme = []; input = s })

abbrev pub continue : (CharLexer → Outcome CharLexer) → Bool × CharLexer → Outcome CharLexer
continue again (true, l) = ok l
continue again (false, l) = again l

unfoldable pub lex_loop : ℕ → CharLexer → Outcome CharLexer
lex_loop zero l = running
lex_loop (suc f) l = elim l.input.eofbit [
  | true ↦ ok (set_token Token.t_eof l)
  | false ↦ lex_round f l >>= continue (lex_loop f)
]

-- Each round of a loop reads a byte, but for the last.
unfoldable pub lex : CharLexer → Outcome CharLexer
lex l = lex_loop (suc (suc (suc (length l.input.rest)))) l

-- The lexer as the constructor leaves it, on a file that could be opened.
abbrev pub new_lexer : Bytes → Logger → CharLexer
new_lexer file g = record {
  curr_lexeme = [];
  curr_token = Token.t_eof;
  consumed = true;
  lineno = 1;
  input = open_stream file;
  logger = g;
}
