-- ===== src/Lexer/Scan.antt =====
-- lexer/lexer.cpp: `isIdentifier`, `isReserved`, `isNumeric` and `isStr`. Each loop takes fuel, a unit
-- for each round. A `char` is its byte; `EOF` stored in a `char` is the byte 255.
use jmm_llvm.Prelude.{
  ℕ, zero, suc, Bool, true, false, Option, none, some, List, [], ◌∷◌, ◌++◌, Bytes, codes, bytes_eq,
  leb, ◌==◌, ◌&&◌, ◌||◌, if◌then◌else◌, reverse,
}
use jmm_llvm.Common.Token.{Token}
use jmm_llvm.Common.Outcome.{Outcome, ok, fault, running, ◌>>=◌, warning}
use jmm_llvm.Lexer.Stream.{Stream}
use jmm_llvm.Lexer.Stream
use jmm_llvm.Lexer.State.{Lexer}

abbrev pub CharLexer : Type 0
CharLexer = Lexer Stream

abbrev pub to_char : Option ℕ → ℕ
to_char none = 255
to_char (some c) = c

-- <cctype> in the "C" locale
abbrev pub is_space : ℕ → Bool
is_space c = c == b' ' || (leb 9 c && leb c 13)

abbrev pub is_digit : ℕ → Bool
is_digit c = leb b'0' c && leb c b'9'

abbrev pub is_alpha : ℕ → Bool
is_alpha c = (leb b'A' c && leb c b'Z') || (leb b'a' c && leb c b'z')

-- The bytes of an identifier after its first.
unfoldable pub is_word : ℕ → Bool
is_word c = (is_alpha c || is_digit c) || c == b'_'

abbrev pub push : ℕ → CharLexer → CharLexer
push c l = record l { curr_lexeme = l.curr_lexeme ++ c ∷ [] }

abbrev pub set_token : Token → CharLexer → CharLexer
set_token t l = record l { curr_token = t }

-- `chr = peek(); while (test(chr)) { push_back(get()); chr = peek(); }`
unfoldable pub take_while : (ℕ → Bool) → ℕ → CharLexer → Outcome CharLexer
take_while test zero l = running
take_while test (suc f) l =
    let (c, s) = Stream.peek l.input in
    elim (test (to_char c)) [
      | true ↦
          let (d, s') = Stream.get s in
          take_while test f (push (to_char d) (record l { input = s' }))
      | false ↦ ok (record l { input = s })
    ]

abbrev pub reserved_words : List (Bytes × Token)
reserved_words =
    (codes "true", Token.true_kw)
    ∷ (codes "false", Token.false_kw)
    ∷ (codes "boolean", Token.bool_kw)
    ∷ (codes "int", Token.int_kw)
    ∷ (codes "void", Token.void_kw)
    ∷ (codes "if", Token.if_kw)
    ∷ (codes "else", Token.else_kw)
    ∷ (codes "while", Token.while_kw)
    ∷ (codes "break", Token.break_kw)
    ∷ (codes "return", Token.return_kw)
    ∷ (codes "str", Token.str)
    ∷ []

unfoldable pub find_word : Bytes → List (Bytes × Token) → Option Token
find_word w [] = none
find_word w ((k, t) ∷ ws) = if bytes_eq k w then some t else find_word w ws

unfoldable pub is_reserved : CharLexer → CharLexer
unfolding find_word
is_reserved l = elim (find_word l.curr_lexeme reserved_words) [
  | some t ↦ record l { curr_token = t; curr_lexeme = [] }
  | none ↦ l
]

unfoldable pub is_identifier : ℕ → CharLexer → Outcome CharLexer
is_identifier f l = do
  let (c, s) = Stream.get l.input
  l' ← take_while is_word f (push (to_char c) (record l { input = s }))
  ok (is_reserved (set_token Token.id l'))

unfoldable pub is_numeric : ℕ → CharLexer → Outcome CharLexer
is_numeric f l = do l' ← take_while is_digit f l; ok (set_token Token.num l')

-- `std::string::pop_back` of an empty string is undefined behaviour.
pop_reversed : Bytes → CharLexer → Outcome CharLexer
pop_reversed [] l = fault
pop_reversed (_ ∷ cs) l = ok (record l { curr_lexeme = reverse cs })

unfoldable pub pop_back : CharLexer → Outcome CharLexer
unfolding pop_reversed
pop_back l = pop_reversed (reverse l.curr_lexeme) l

unfoldable pub warn : CharLexer → Outcome CharLexer
warn l = do g ← warning l.logger; ok (record l { logger = g })

-- The switch on the byte behind a backslash: what the string gets, if the escape is known.
unfoldable pub escape : ℕ → Option ℕ
escape c =
    if c == b'b'
    then some 8
    else if c == b'f'
    then some 12
    else if c == b't'
    then some 9
    else if c == b'r'
    then some 13
    else if c == b'n'
    then some 10
    else if c == b'\''
    then some c
    else if c == b'"'
    then some c
    else if c == b'\\'
    then some c
    else none

unfoldable pub after_backslash : Option ℕ → CharLexer → Outcome CharLexer
after_backslash (some c) l = ok (push c l)
after_backslash none l = do l' ← warn l; pop_back l'

-- The body of the loop of `isStr`, over the byte `chr` that was read.
unfoldable pub str_char : ℕ → CharLexer → Outcome CharLexer
unfolding escape after_backslash
str_char chr l =
    let (d, s) = Stream.get l.input in
    if chr == b'\\'
    then after_backslash (escape (to_char d)) (record l { input = s })
    else if chr == b'\n'
    then warn l
    else ok (push chr l)

-- `chr = get(); while (chr != '"') { …; chr = get(); }`
unfoldable pub str_loop : ℕ → CharLexer → Outcome CharLexer
str_loop zero l = running
str_loop (suc f) l =
    let (c, s) = Stream.get l.input in
    let l₁ = record l { input = s } in
    elim (to_char c == b'"') [
      | true ↦ ok l₁
      | false ↦ str_char (to_char c) l₁ >>= λ l₂. str_loop f l₂
    ]

unfoldable pub is_str : ℕ → CharLexer → Outcome CharLexer
is_str f l =
    let (_, s) = Stream.get l.input in
    str_loop f (record l { curr_token = Token.strlit; input = s })
