-- ===== src/Common/Token.antt =====
-- common/globals.h: `enum class Token`, and the comparison of two of its values.
use jmm_llvm.Prelude.{ℕ, Bool, ◌==◌, ◌≡◌, refl, ap, ◌∙◌, sym, ◌↔◌, ==_iff, if◌then◌else◌}

pub data Token : Type 0 where
  t_eof id num strlit str : Token
  true_kw false_kw bool_kw int_kw void_kw if_kw else_kw while_kw break_kw return_kw : Token
  oparen cparen obrck cbrck : Token
  minus plus inc dec mult div modulo xor : Token
  gt lt gteq lteq lshift rshift eq not neq assign land lor band bor : Token
  comma semicol : Token

-- The value of the enumerator.
unfoldable pub value : Token → ℕ
value t_eof = 0
value id = 1
value num = 2
value strlit = 3
value str = 4
value true_kw = 5
value false_kw = 6
value bool_kw = 7
value int_kw = 8
value void_kw = 9
value if_kw = 10
value else_kw = 11
value while_kw = 12
value break_kw = 13
value return_kw = 14
value oparen = 15
value cparen = 16
value obrck = 17
value cbrck = 18
value minus = 19
value plus = 20
value inc = 21
value dec = 22
value mult = 23
value div = 24
value modulo = 25
value xor = 26
value gt = 27
value lt = 28
value gteq = 29
value lteq = 30
value lshift = 31
value rshift = 32
value eq = 33
value not = 34
value neq = 35
value assign = 36
value land = 37
value lor = 38
value band = 39
value bor = 40
value comma = 41
value semicol = 42

abbrev first_half : ℕ → Token
first_half n =
    if n == 0
    then t_eof
    else if n == 1
    then id
    else if n == 2
    then num
    else if n == 3
    then strlit
    else if n == 4
    then str
    else if n == 5
    then true_kw
    else if n == 6
    then false_kw
    else if n == 7
    then bool_kw
    else if n == 8
    then int_kw
    else if n == 9
    then void_kw
    else if n == 10
    then if_kw
    else if n == 11
    then else_kw
    else if n == 12
    then while_kw
    else if n == 13
    then break_kw
    else if n == 14
    then return_kw
    else if n == 15
    then oparen
    else if n == 16
    then cparen
    else if n == 17
    then obrck
    else if n == 18
    then cbrck
    else if n == 19
    then minus
    else if n == 20
    then plus
    else inc

-- The enumerator of a value.
of_value : ℕ → Token
of_value n =
    if n == 22
    then dec
    else if n == 23
    then mult
    else if n == 24
    then div
    else if n == 25
    then modulo
    else if n == 26
    then xor
    else if n == 27
    then gt
    else if n == 28
    then lt
    else if n == 29
    then gteq
    else if n == 30
    then lteq
    else if n == 31
    then lshift
    else if n == 32
    then rshift
    else if n == 33
    then eq
    else if n == 34
    then not
    else if n == 35
    then neq
    else if n == 36
    then assign
    else if n == 37
    then land
    else if n == 38
    then lor
    else if n == 39
    then band
    else if n == 40
    then bor
    else if n == 41
    then comma
    else if n == 42
    then semicol
    else first_half n

of_value-value : (t : Token) → of_value (value t) ≡ t
unfolding of_value value
of_value-value t_eof = refl
of_value-value _ = refl

-- `a == b` on tokens.
unfoldable pub tok_eq : Token → Token → Bool
unfolding value
tok_eq a b = value a == value b

pub tok_eq_iff : (a b : Token) → (tok_eq a b ≡ Bool.true) ↔ (a ≡ b)
unfolding tok_eq
tok_eq_iff a b = (
  λ h. sym (of_value-value a) ∙ ap of_value ((==_iff (value a) (value b)).0 h) ∙ of_value-value b,
  λ e. (==_iff (value a) (value b)).1 (ap value e),
)
