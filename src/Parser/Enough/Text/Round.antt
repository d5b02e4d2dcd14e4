-- ===== src/Parser/Enough/Text/Round.antt =====
-- One round of the loop of `lex`, in front of a byte.
use jmm_llvm.Prelude.{
  none, some, ◌≤◌, ==_iff, ◌||◌, ◌||◌, Option-cases, ℕ, ◌+◌, ◌≤◌, ◌<◌, Bool, true, false, [], ◌∷◌,
  Bytes, ◌==◌, ◌≡◌, refl, subst, sym, arith, length, Bool-cases, inl, inr,
}
use jmm_llvm.Common.Token.{Token}
use jmm_llvm.Common.Outcome.{ok, warning_lem, ◌>>=◌, Ensures, returns, ◌⟫◌}
use jmm_llvm.Lexer.Stream.{Stream}
use jmm_llvm.Lexer.Stream
use jmm_llvm.Lexer.Comments.{between}
use jmm_llvm.Lexer.Scan.{
  warn, is_space, is_alpha, is_digit, warn, push, CharLexer, is_digit, is_word, set_token,
  is_reserved, is_identifier, is_numeric,
}
use jmm_llvm.Lexer.Operators.{
  is_special, is_operator, is_operator, is_special, Operator, operator_of, special_of, second_byte,
}
use jmm_llvm.Lexer.Lex.{dispatch, slash, other, unknown, skip_byte}
use jmm_llvm.Parser.Enough.{chosen, pending, is_real}
use jmm_llvm.Parser.Enough.Text.{
  Text, Text-tail, Text-head, Shrinks, take_while-Shrinks, take_while_first, skip_comment-Shrinks,
  second_byte-Shrinks, is_reserved-input,
}

-- What a round of `lex` leaves: a token, or the rest of the text behind a byte that was skipped.
abbrev pub cost : Bool → Token → ℕ
cost true t = pending t
cost false t = 1

abbrev pub Round : Stream → Bool × CharLexer → Type 0
Round s (done, l) =
    Text l.input.rest × (cost done l.curr_token + length l.input.rest ≤ length s.rest)

pending_one : (t : Token) → pending t ≤ 1
pending_one t = elim (Bool-cases (is_real t)) [
  | inl e ↦ rw e (omega arith)
  | inr e ↦ rw e (omega arith)
]

-- A token that took a byte.
taken : (s : Stream) (l : CharLexer) → Shrinks 1 s l.input → Round s (true, l)
taken s l (t, b) = let one = pending_one l.curr_token in (t, omega arith)

-- On the first byte of a text.
module _ (f : ℕ) (l : CharLexer) (before : Bytes) (c : ℕ) (cs : Bytes) (t : Text (c ∷ cs))
    (h : length (c ∷ cs) < f) where
  abbrev at_byte : CharLexer
  at_byte = record l { input = between before (c ∷ cs) }

  skip-Round :
      (n : ℕ) → Round (between before (c ∷ cs)) (false, skip_byte (record at_byte { lineno = n }))
  unfolding skip_byte Stream.get
  skip-Round n = (Text-tail c cs t, omega arith)

  is_identifier-Round :
      Ensures (λ l'. Round (between before (c ∷ cs)) (true, l')) (is_identifier f at_byte)
  unfolding is_identifier is_word Stream.get
  is_identifier-Round =
      take_while-Shrinks is_word refl f (push c l) (c ∷ before) cs false false (Text-tail c cs t)
        (omega arith)
      ⟫ λ l' (t', b).
          let same = is_reserved-input (set_token Token.id l') in
          returns (
            taken (between before (c ∷ cs)) (is_reserved (set_token Token.id l'))
              (subst (λ s. Shrinks 1 (between before (c ∷ cs)) s) (sym same) (t', omega arith)))

  is_numeric-Round :
      is_digit c ≡ true
      → Ensures (λ l'. Round (between before (c ∷ cs)) (true, l')) (is_numeric f at_byte)
  unfolding is_numeric
  is_numeric-Round e = take_while_first is_digit refl f l before c cs t h e ⟫ λ l' (t', b).
      returns (taken (between before (c ∷ cs)) (set_token Token.num l') (t', b))

  is_special_hit :
      (u : Token)
      → special_of c ≡ some u
      → is_special at_byte
        ≡ (true, record at_byte { curr_token = u; input = between (c ∷ before) cs })
  unfolding is_special Stream.get
  is_special_hit u e = rw e refl

  is_special_miss : special_of c ≡ none → is_special at_byte ≡ (false, at_byte)
  unfolding is_special Stream.get Stream.unget
  is_special_miss e = rw e refl

  is_operator_hit :
      (o : Operator)
      → operator_of c ≡ some o
      → is_operator at_byte ≡ (
        true,
        second_byte o.double
            (record at_byte { curr_token = o.single; input = between (c ∷ before) cs }),
      )
  unfolding is_operator Stream.get
  is_operator_hit o e = rw e refl

  is_operator_miss : operator_of c ≡ none → is_operator at_byte ≡ (false, at_byte)
  unfolding is_operator Stream.get Stream.unget
  is_operator_miss e = rw e refl

  operator_taken :
      (o : Operator)
      → Round (between before (c ∷ cs)) (
        true,
        second_byte o.double
            (record at_byte { curr_token = o.single; input = between (c ∷ before) cs }),
      )
  operator_taken o =
      let after = record at_byte { curr_token = o.single; input = between (c ∷ before) cs } in
      let (t', b) = second_byte-Shrinks o.double after (Text-tail c cs t) in
      taken (between before (c ∷ cs)) (second_byte o.double after) (t', omega arith)

  warned : Ensures (λ (l' : CharLexer). l'.input ≡ between before (c ∷ cs)) (warn at_byte)
  unfolding warn
  warned = warning_lem l.logger ⟫ λ g _. returns refl

  warn-Round :
      Ensures (Round (between before (c ∷ cs))) (warn at_byte >>= λ l'. ok (false, skip_byte l'))
  unfolding skip_byte Stream.get
  warn-Round = warned ⟫ λ l' e. returns (
      subst (λ s. Text (Stream.get s).1.rest × (1 + length (Stream.get s).1.rest ≤ length (c ∷ cs)))
        (sym e) (Text-tail c cs t, omega arith))

  unknown-Round : Ensures (Round (between before (c ∷ cs))) (unknown c at_byte)
  unfolding unknown
  unknown-Round = chosen (c == 255) (λ _. returns (t, omega arith)) λ _. warn-Round

  other-Round : Ensures (Round (between before (c ∷ cs))) (other c at_byte)
  unfolding other
  other-Round = elim (Option-cases (special_of c)) [
    | inr (u, hit) ↦ rw (is_special_hit u hit) (
        returns (
          taken (between before (c ∷ cs))
            (record at_byte { curr_token = u; input = between (c ∷ before) cs })
            (Text-tail c cs t, omega arith)))
    | inl miss ↦ rw (is_special_miss miss) (elim (Option-cases (operator_of c)) [
      | inr (o, hit) ↦ rw (is_operator_hit o hit) (returns (operator_taken o))
      | inl miss' ↦ rw (is_operator_miss miss') unknown-Round
    ])
  ]

  div-Round : (c == b'/') ≡ true → Round (between before (c ∷ cs)) (true, (is_operator at_byte).1)
  unfolding operator_of
  div-Round e =
      let div = subst (λ n. operator_of n ≡ operator_of b'/') (sym ((==_iff c b'/').0 e)) refl in
      rw (is_operator_hit _ div) (operator_taken _)

-- A comment, or the operator.
slash-Round :
    (f : ℕ) (l : CharLexer) (before : Bytes) (c : ℕ) (cs : Bytes)
    → Text (c ∷ cs)
    → length (c ∷ cs) < f
    → (c == b'/') ≡ true
    → Ensures
        (Round (between before (c ∷ cs)))
        (slash f (record l { input = between before (c ∷ cs) }))
unfolding slash Stream.get Stream.peek Stream.unget
slash-Round f l before c [] t h e = ground arith
slash-Round f l before c (d ∷ ds) (q, t) h e =
    chosen (d == b'/')
      (λ _. skip_comment-Shrinks f (c ∷ before) d ds t (omega arith) ⟫ λ s (t', b).
        returns (t', omega arith))
      λ _. returns (div-Round f l before c (d ∷ ds) (q, t) h e)

pub dispatch-Round :
    (f : ℕ) (l : CharLexer) (before : Bytes) (c : ℕ) (cs : Bytes)
    → Text (c ∷ cs)
    → length (c ∷ cs) < f
    → Ensures
        (Round (between before (c ∷ cs)))
        (dispatch f c (record l { input = between before (c ∷ cs) }))
unfolding dispatch
dispatch-Round f l before c cs t h =
    chosen (c == b'\n') (λ _. returns (skip-Round f l before c cs t h (l.lineno + 1)))
      λ _.
        chosen (is_space c) (λ _. returns (skip-Round f l before c cs t h l.lineno))
          λ _.
            chosen (is_alpha c || c == b'_')
              (λ _. is_identifier-Round f l before c cs t h ⟫ λ l' r. returns r)
              λ _.
                chosen (is_digit c)
                  (λ e. is_numeric-Round f l before c cs t h e ⟫ λ l' r. returns r)
                  λ _.
                    chosen (c == b'"') (λ e. let no_quote = Text-head c cs t in cc)
                      λ _.
                        chosen (c == b'/') (λ e. slash-Round f l before c cs t h e)
                          λ _. other-Round f l before c cs t h
