-- ===== src/Printer/Numbers.antt =====
-- The numbers that common/ast_printer.cpp prints, read back by the number literals of parser/parser.cpp.
use jmm_llvm.Prelude.{
  ◌∙◌, sym, ◌==◌, ◌≢◌, ap, ℕ, zero, suc, ◌+◌, ◌-◌, ◌*◌, ◌/◌, ◌%◌, ◌^◌, ◌≤◌, ◌<◌, [], ◌∷◌, ◌++◌,
  Bytes, ◌≡◌, refl, arith, ltb, Bool-cases, inl, inr, true, false, leb,
}
use jmm_llvm.Lexer.Scan.{is_digit, is_space}
use jmm_llvm.Common.Outcome.{ok}
use jmm_llvm.Common.Ast.{ival}
use jmm_llvm.Parser.Base.{unsigned, signed, skip_spaces, decimal, stoul_int32, ulong_max}
use jmm_llvm.Printer.{digits, show, show_int32, literal_text}

AllDigits : Bytes → Type 0
AllDigits [] = Unit {0}
AllDigits (c ∷ cs) = (is_digit c ≡ true) × AllDigits cs

AllDigits-append : (s : Bytes) (c : ℕ) → AllDigits s → is_digit c ≡ true → AllDigits (s ++ c ∷ [])
unfolding AllDigits
AllDigits-append [] c h d = (d, tt)
AllDigits-append (e ∷ s) c (h, hs) d = (h, AllDigits-append s c hs d)

decimal-append :
    (acc : ℕ) (s : Bytes) (c : ℕ)
    → AllDigits s
    → is_digit c ≡ true
    → decimal acc (s ++ c ∷ []) ≡ decimal acc s * 10 + (c - b'0')
unfolding decimal AllDigits
decimal-append acc [] c h d = rw d refl
decimal-append acc (e ∷ s) c (h, hs) d = rw h (decimal-append (acc * 10 + (e - b'0')) s c hs d)

below : (a b : ℕ) → a < b → ltb a b ≡ true
below a b h = ground arith

at_most : (n : ℕ) → n < 2 ^ 31 → leb n ulong_max ≡ true
at_most n h = ground arith

not_small : (n : ℕ) → ltb n 10 ≡ false → 10 ≤ n
not_small n e = ground arith

last_digit : (n : ℕ) → is_digit (b'0' + n % 10) ≡ true
last_digit n = let h : n % 10 < 10 = omega arith in ground arith

one_digit : (n : ℕ) → ltb n 10 ≡ true → is_digit (b'0' + n) ≡ true
one_digit n e = ground arith

digits-AllDigits : (f n : ℕ) → AllDigits (digits f n)
unfolding digits AllDigits
digits-AllDigits zero n = tt
digits-AllDigits (suc f) n = elim (Bool-cases (ltb n 10)) [
  | inl small ↦ rw small (one_digit n small, tt)
  | inr large ↦ rw large (
      AllDigits-append (digits f (n / 10)) (b'0' + n % 10) (digits-AllDigits f (n / 10))
        (last_digit n))
]

decimal-digits : (f n : ℕ) → n < f → decimal 0 (digits f n) ≡ n
unfolding decimal digits
decimal-digits zero n h = absurd (omega arith)
decimal-digits (suc f) n h = elim (Bool-cases (ltb n 10)) [
  | inl small ↦ rw (small, one_digit n small) (omega arith)
  | inr large ↦
      let ten = not_small n large in
      rw
        (
          large,
          decimal-append 0 (digits f (n / 10)) (b'0' + n % 10) (digits-AllDigits f (n / 10))
              (last_digit n),
          decimal-digits f (n / 10) (omega arith),
        )
        (omega arith)
]

first_digit :
    (c : ℕ) (cs : Bytes) → is_digit c ≡ true → decimal 0 (c ∷ cs) ≡ decimal (0 * 10 + (c - b'0')) cs
unfolding decimal
first_digit c cs h = rw h refl

-- A text of digits is a number without white space and without a sign.
stoul_digits :
    (s : Bytes) (n : ℕ) → AllDigits s → s ≢ [] → decimal 0 s ≡ n → n < 2 ^ 31 → stoul_int32 s ≡ ok n
unfolding stoul_int32 skip_spaces signed unsigned AllDigits
stoul_digits [] n h some e k = absurd (some refl)
stoul_digits (c ∷ cs) n (h, hs) some e k =
    let space : is_space c ≡ false = ground arith in
    let minus : (c == b'-') ≡ false = ground arith in
    let plus : (c == b'+') ≡ false = ground arith in
    rw (space, minus, plus, h, sym (first_digit c cs h) ∙ e, at_most n k) (ap ok (omega arith))

digits-some : (f n : ℕ) → n < f → digits f n ≢ []
unfolding digits
digits-some zero n h = absurd (omega arith)
digits-some (suc f) n h = elim (Bool-cases (ltb n 10)) [
  | inl small ↦ rw small (λ e. cc)
  | inr large ↦ rw large (longer (digits f (n / 10)) (b'0' + n % 10))
]
  where
    longer : (s : Bytes) (c : ℕ) → (s ++ c ∷ []) ≢ []
    longer [] c e = cc
    longer (d ∷ s) c e = cc

-- An integer literal that is not negative as an `int32_t` is printed as the number literal that the parser
-- reads back as it.
pub stoul_int32-literal_text : (n : ℕ) → n < 2 ^ 31 → stoul_int32 (literal_text (ival n)) ≡ ok n
unfolding literal_text show_int32 show
stoul_int32-literal_text n h = rw (below n (2 ^ 31) h) (
    stoul_digits (digits (n + 1) n) n (digits-AllDigits (n + 1) n)
      (digits-some (n + 1) n (omega arith)) (decimal-digits (n + 1) n (omega arith)) h)
