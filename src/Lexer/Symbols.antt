-- ===== src/Lexer/Symbols.antt =====
-- `isSpecial` and `isOperator`: how operators and punctuation are spelled, and the longest match.
use jmm_llvm.Prelude.{ℕ, false, [], ◌∷◌, ◌++◌, Bytes, ◌==◌, ◌≡◌, ◌≢◌, refl, arith}
use jmm_llvm.Common.Token.{Token}
use jmm_llvm.Common.Outcome.{ok}
use jmm_llvm.Lexer.Stream
use jmm_llvm.Lexer.Scan.{CharLexer}
use jmm_llvm.Lexer.Operators.{second_byte, is_operator, is_special}
use jmm_llvm.Lexer.Lex.{slash, other, dispatch, lex, lex_loop, lex_round}
use jmm_llvm.Lexer.Comments.{between, moved, Avoids}

-- A symbol that no longer symbol starts with.
pub data Closed : Bytes → Token → Type 0 where
  oparen : Closed (b'(' ∷ []) Token.oparen
  cparen : Closed (b')' ∷ []) Token.cparen
  obrck : Closed (b'{' ∷ []) Token.obrck
  cbrck : Closed (b'}' ∷ []) Token.cbrck
  semicol : Closed (b';' ∷ []) Token.semicol
  comma : Closed (b',' ∷ []) Token.comma
  mult : Closed (b'*' ∷ []) Token.mult
  modulo : Closed (b'%' ∷ []) Token.modulo
  xor : Closed (b'^' ∷ []) Token.xor
  inc : Closed (b'+' ∷ b'+' ∷ []) Token.inc
  dec : Closed (b'-' ∷ b'-' ∷ []) Token.dec
  lteq : Closed (b'<' ∷ b'=' ∷ []) Token.lteq
  lshift : Closed (b'<' ∷ b'<' ∷ []) Token.lshift
  gteq : Closed (b'>' ∷ b'=' ∷ []) Token.gteq
  rshift : Closed (b'>' ∷ b'>' ∷ []) Token.rshift
  eq : Closed (b'=' ∷ b'=' ∷ []) Token.eq
  neq : Closed (b'!' ∷ b'=' ∷ []) Token.neq
  land : Closed (b'&' ∷ b'&' ∷ []) Token.land
  lor : Closed (b'|' ∷ b'|' ∷ []) Token.lor

-- A symbol of one byte, with the bytes that would make it a longer one, or a comment.
pub data Open : ℕ → Bytes → Token → Type 0 where
  plus : Open b'+' (b'+' ∷ []) Token.plus
  minus : Open b'-' (b'-' ∷ []) Token.minus
  div : Open b'/' (b'/' ∷ []) Token.div
  lt : Open b'<' (b'=' ∷ b'<' ∷ []) Token.lt
  gt : Open b'>' (b'=' ∷ b'>' ∷ []) Token.gt
  assign : Open b'=' (b'=' ∷ []) Token.assign
  not : Open b'!' (b'=' ∷ []) Token.not
  band : Open b'&' (b'&' ∷ []) Token.band
  bor : Open b'|' (b'|' ∷ []) Token.bor

-- In front of a symbol that no longer one starts with, `lex` returns its token with an empty lexeme, and
-- the input stands behind it.
pub lex-Closed :
    {cs : Bytes} {t : Token} (k : Closed cs t) (l : CharLexer) (before ds : Bytes)
    → lex (record l { input = between before (cs ++ ds) })
      ≡ ok (record l { curr_lexeme = []; curr_token = t; input = between (moved cs before) ds })
unfolding lex lex_loop lex_round dispatch slash other is_special is_operator second_byte Stream.peek
    Stream.get Stream.unget moved
lex-Closed Closed.oparen l before ds = refl
lex-Closed Closed.cparen l before ds = refl
lex-Closed Closed.obrck l before ds = refl
lex-Closed Closed.cbrck l before ds = refl
lex-Closed Closed.semicol l before ds = refl
lex-Closed Closed.comma l before ds = refl
lex-Closed Closed.mult l before ds = refl
lex-Closed Closed.modulo l before ds = refl
lex-Closed Closed.xor l before ds = refl
lex-Closed Closed.inc l before ds = refl
lex-Closed Closed.dec l before ds = refl
lex-Closed Closed.lteq l before ds = refl
lex-Closed Closed.lshift l before ds = refl
lex-Closed Closed.gteq l before ds = refl
lex-Closed Closed.rshift l before ds = refl
lex-Closed Closed.eq l before ds = refl
lex-Closed Closed.neq l before ds = refl
lex-Closed Closed.land l before ds = refl
lex-Closed Closed.lor l before ds = refl

differs : {c d : ℕ} → c ≢ d → (d == c) ≡ false
differs n = ground arith

-- In front of a one-byte symbol and a byte that does not make it longer, `lex` returns its token with an
-- empty lexeme, and the input stands in front of that byte.
pub lex-Open :
    {c : ℕ} {longer : Bytes} {t : Token} (k : Open c longer t) (l : CharLexer) (before : Bytes)
    (d : ℕ) (ds : Bytes)
    → Avoids d longer
    → lex (record l { input = between before (c ∷ d ∷ ds) })
      ≡ ok (record l { curr_lexeme = []; curr_token = t; input = between (c ∷ before) (d ∷ ds) })
unfolding lex lex_loop lex_round dispatch slash other is_special is_operator second_byte Stream.peek
    Stream.get Stream.unget
lex-Open Open.plus l before d ds (n, _) = rw (differs n, second_byte) refl
lex-Open Open.minus l before d ds (n, _) = rw (differs n, second_byte) refl
lex-Open Open.div l before d ds (n, _) = rw (differs n, second_byte) refl
lex-Open Open.lt l before d ds (n, (m, _)) =
    rw (differs n, second_byte) (rw (differs m, second_byte) refl)
lex-Open Open.gt l before d ds (n, (m, _)) =
    rw (differs n, second_byte) (rw (differs m, second_byte) refl)
lex-Open Open.assign l before d ds (n, _) = rw (differs n, second_byte) refl
lex-Open Open.not l before d ds (n, _) = rw (differs n, second_byte) refl
lex-Open Open.band l before d ds (n, _) = rw (differs n, second_byte) refl
lex-Open Open.bor l before d ds (n, _) = rw (differs n, second_byte) refl
