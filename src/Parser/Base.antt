-- ===== src/Parser/Base.antt =====
-- parser/parser.cpp: `match`, `error`, `tokenToOp`, and the leaves of the grammar. A parser takes the
-- lexer and returns its result with the lexer; a null node is `none`. All of `Parser` is over the
-- function `lex` that finds the next token: the lexer's, or another source of tokens.
use jmm_llvm.Prelude.{
  ℕ, ◌+◌, ◌-◌, ◌*◌, ◌%◌, ◌^◌, Bool, true, false, Option, none, some, List, [], ◌∷◌, Bytes, String,
  if◌then◌else◌, leb, ◌==◌,
}
use jmm_llvm.Common.Token.{Token, tok_eq}
use jmm_llvm.Common.Types.{VType, Op}
use jmm_llvm.Common.Outcome.{
  Outcome, ok, exit, running, expected, uncaught_out_of_range, uncaught_invalid_argument,
}
use jmm_llvm.Common.Outcome
use jmm_llvm.Common.Ast.{Expr, lit_expr, ival, bval, sval}
use jmm_llvm.Lexer.Scan.{is_digit, is_space}
use jmm_llvm.Lexer.State.{Lexer, peek, consume}

-- `tokenToOp`; any other token gives `PREINC`.
unfoldable pub token_to_op : Token → Op
token_to_op Token.minus = Op.sub
token_to_op Token.plus = Op.add
token_to_op Token.mult = Op.mult
token_to_op Token.div = Op.div
token_to_op Token.modulo = Op.modulo
token_to_op Token.xor = Op.xor
token_to_op Token.gt = Op.gt
token_to_op Token.lt = Op.lt
token_to_op Token.gteq = Op.ge
token_to_op Token.lteq = Op.le
token_to_op Token.lshift = Op.lshift
token_to_op Token.rshift = Op.rshift
token_to_op Token.eq = Op.eq
token_to_op Token.not = Op.not
token_to_op Token.neq = Op.ne
token_to_op Token.land = Op.land
token_to_op Token.lor = Op.lor
token_to_op Token.band = Op.band
token_to_op Token.bor = Op.bor
token_to_op _ = Op.preinc

-- `std::stoul`, on a 64-bit `unsigned long`: white space, a sign, and the digits up to another byte; an
-- exception without a digit or above the range. A minus negates the number in the type.
unfoldable pub decimal : ℕ → Bytes → ℕ
decimal acc [] = acc
decimal acc (c ∷ cs) = if is_digit c then decimal (acc * 10 + (c - b'0')) cs else acc

abbrev pub ulong_max : ℕ
ulong_max = 18446744073709551615

unfoldable pub unsigned : Bytes → Outcome ℕ
unsigned [] = exit uncaught_invalid_argument
unsigned (c ∷ cs) =
    let n = decimal 0 (c ∷ cs) in
    if is_digit c
    then (if leb n ulong_max then ok n else exit uncaught_out_of_range)
    else exit uncaught_invalid_argument

-- The negation of the number that was read, modulo the range of the type.
unfoldable pub negated : Outcome ℕ → Outcome ℕ
negated o = Outcome.◌>>=◌ o λ n. ok ((2 ^ 64 - n) % 2 ^ 64)

unfoldable pub signed : Bytes → Outcome ℕ
signed [] = unsigned []
signed (c ∷ cs) =
    if c == b'-'
    then negated (unsigned cs)
    else if c == b'+'
    then unsigned cs
    else unsigned (c ∷ cs)

unfoldable pub skip_spaces : Bytes → Bytes
skip_spaces [] = []
skip_spaces (c ∷ cs) = if is_space c then skip_spaces cs else c ∷ cs

-- The cast of the number to `int32_t`, as its bit pattern.
unfoldable pub stoul_int32 : Bytes → Outcome ℕ
unfolding decimal unsigned signed skip_spaces
stoul_int32 s = Outcome.◌>>=◌ (signed (skip_spaces s)) λ n. ok (n % 2 ^ 32)

abbrev pub Parser {ℓ} : Type 0 → Type ℓ → Type ℓ
Parser I A = Lexer I → Outcome (A × Lexer I)

infixl 5 ◌>>=◌ ◌>>◌
abbrev pub ◌>>=◌ {ℓ κ} :
    {I : Type 0} {A : Type ℓ} {B : Type κ} → Parser I A → (A → Parser I B) → Parser I B
◌>>=◌ p f = λ l. Outcome.◌>>=◌ (p l) λ (a, l'). f a l'

abbrev pub ◌>>◌ {ℓ} : {I : Type 0} {B : Type ℓ} → Parser I (Unit {0}) → Parser I B → Parser I B
p >> q = p >>= λ _. q

abbrev pub pure {ℓ} : {I : Type 0} {A : Type ℓ} → A → Parser I A
pure a = λ l. ok (a, l)

-- `m_lexer->line()`, `lexeme()` and `current()`.
abbrev pub line : {I : Type 0} → Parser I ℕ
line = λ l. ok (l.lineno, l)

abbrev lexeme : {I : Type 0} → Parser I Bytes
lexeme = λ l. ok (l.curr_lexeme, l)

abbrev pub current : {I : Type 0} → Parser I Token
current = λ l. ok (l.curr_token, l)

module _ {I : Type 0} (lex : Lexer I → Outcome (Lexer I)) where
  unfoldable pub match : Token → Parser I Bool
  match wanted l =
      Outcome.◌>>=◌ (peek lex l)
        λ (t, l'). if tok_eq t wanted then ok (true, consume l') else ok (false, l')

  -- `match(a) || match(b) || …`
  unfoldable pub match_any : List Token → Parser I Bool
  match_any [] = pure false
  match_any (t ∷ ts) = do m ← match t; if m then pure true else match_any ts

  -- `error`: it does not return. The order in which the message's line and token are read is left
  -- open by the language; the token was peeked before, so it does not matter.
  unfoldable pub error {ℓ} : {A : Type ℓ} → String → Parser I A
  error what l = Outcome.◌>>=◌ (peek lex l) λ (t, l'). exit (expected l'.lineno what t)

  -- `if (!match(t)) error(what);`
  abbrev pub require : Token → String → Parser I (Unit {0})
  require t what = do m ← match t; if m then pure tt else error what

  -- `if (!node) error(what);`
  unfoldable pub non_null {ℓ} : {A : Type ℓ} → String → Option A → Parser I A
  non_null what (some a) = pure a
  non_null what none = error what

  unfoldable pub type : Parser I (Option VType)
  type = do
    b ← match Token.bool_kw
    if b then pure (some VType.bool) else do
      i ← match Token.int_kw
      if i
          then pure (some VType.int)
          else do s ← match Token.str; if s then pure (some VType.str) else pure none

  -- The line and the name of the `IdExpr`.
  unfoldable pub identifier : Parser I (Option (ℕ × Bytes))
  identifier = do
    m ← match Token.id
    if m then (do name ← lexeme; l ← line; pure (some (l, name))) else pure none

  unfoldable pub number : Parser I (Option Expr)
  number = do
    digits ← lexeme
    n ← λ l. Outcome.◌>>=◌ (stoul_int32 digits) λ n. ok (n, l)
    l ← line
    pure (some (lit_expr l (ival n)))

  unfoldable pub literal : Parser I (Option Expr)
  unfolding number
  literal = do
    n ← match Token.num
    if n then number else do
      s ← match Token.strlit
      if s then (do text ← lexeme; l ← line; pure (some (lit_expr l (sval text)))) else do
        t ← match Token.true_kw
        if t then (do l ← line; pure (some (lit_expr l (bval true)))) else do
          f ← match Token.false_kw
          if f then (do l ← line; pure (some (lit_expr l (bval false)))) else pure none
