-- ===== src/Lexer/Operators.antt =====
-- lexer/lexer.cpp: `isOperator` and `isSpecial`. Each reads a byte and puts it back if it does not fit;
-- the Boolean is the result.
use jmm_llvm.Prelude.{ℕ, Bool, true, false, Option, none, some, List, [], ◌∷◌, ◌==◌, if◌then◌else◌}
use jmm_llvm.Common.Token.{Token}
use jmm_llvm.Lexer.Stream.{Stream}
use jmm_llvm.Lexer.Stream
use jmm_llvm.Lexer.Scan.{CharLexer, to_char}

-- An operator is one byte, or that byte and one of some second bytes.
pub record Operator : Type 0 where
  pub single : Token
  pub double : List (ℕ × Token)

abbrev one : Token → Option Operator
one t = some (record { single = t; double = [] })

abbrev two : Token → ℕ → Token → Option Operator
two t c u = some (record { single = t; double = (c, u) ∷ [] })

-- The switch of `isOperator`.
unfoldable pub operator_of : ℕ → Option Operator
operator_of c =
    if c == b'+'
    then two Token.plus b'+' Token.inc
    else if c == b'-'
    then two Token.minus b'-' Token.dec
    else if c == b'/'
    then one Token.div
    else if c == b'*'
    then one Token.mult
    else if c == b'%'
    then one Token.modulo
    else if c == b'^'
    then one Token.xor
    else if c == b'<'
    then some
        (record { single = Token.lt; double = (b'=', Token.lteq) ∷ (b'<', Token.lshift) ∷ [] })
    else if c == b'>'
    then some
        (record { single = Token.gt; double = (b'=', Token.gteq) ∷ (b'>', Token.rshift) ∷ [] })
    else if c == b'='
    then two Token.assign b'=' Token.eq
    else if c == b'!'
    then two Token.not b'=' Token.neq
    else if c == b'&'
    then two Token.band b'&' Token.land
    else if c == b'|'
    then two Token.bor b'|' Token.lor
    else none

-- The `if (m_input.peek() == …)` ladder behind a first byte.
unfoldable pub second_byte : List (ℕ × Token) → CharLexer → CharLexer
second_byte [] l = l
second_byte ((c, t) ∷ ds) l =
    let (d, s) = Stream.peek l.input in
    let (_, s') = Stream.get s in
    if to_char d == c
    then record l { input = s'; curr_token = t }
    else second_byte ds (record l { input = s })

operator_found : Option Operator → CharLexer → Bool × CharLexer
operator_found none l = (false, record l { input = Stream.unget l.input })
operator_found (some o) l = (true, second_byte o.double (record l { curr_token = o.single }))

unfoldable pub is_operator : CharLexer → Bool × CharLexer
unfolding operator_of second_byte operator_found
is_operator l =
    let (c, s) = Stream.get l.input in
    operator_found (operator_of (to_char c)) (record l { input = s })

-- The switch of `isSpecial`.
unfoldable pub special_of : ℕ → Option Token
special_of c =
    if c == b'('
    then some Token.oparen
    else if c == b')'
    then some Token.cparen
    else if c == b'{'
    then some Token.obrck
    else if c == b'}'
    then some Token.cbrck
    else if c == b';'
    then some Token.semicol
    else if c == b','
    then some Token.comma
    else none

special_found : Option Token → CharLexer → Bool × CharLexer
special_found none l = (false, record l { input = Stream.unget l.input })
special_found (some t) l = (true, record l { curr_token = t })

unfoldable pub is_special : CharLexer → Bool × CharLexer
unfolding special_of special_found
is_special l =
    let (c, s) = Stream.get l.input in
    special_found (special_of (to_char c)) (record l { input = s })
