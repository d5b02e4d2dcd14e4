-- ===== src/Lexer/Words.antt =====
-- `isIdentifier` and `isNumeric`: the loop over the bytes of a word takes all of them and stops in
-- front of the first byte that does not belong to it.
use jmm_llvm.Prelude.{
  ℕ, zero, suc, ◌<◌, Bool, true, false, [], ◌∷◌, ◌++◌, ◌||◌, Bytes, ◌==◌, refl, ◌≡◌, refl, arith,
  length, length-append, ap, sym, ◌∙◌, append-nil, append_assoc,
}
use jmm_llvm.Common.Outcome.{ok, ◌>>=◌}
use jmm_llvm.Lexer.Stream
use jmm_llvm.Lexer.Scan.{
  CharLexer, push, set_token, take_while, is_alpha, is_space, is_digit, is_word, is_identifier,
  is_numeric, is_reserved,
}
use jmm_llvm.Lexer.Lex.{continue, dispatch, lex, lex_loop, lex_round}
use jmm_llvm.Common.Token.{Token}
use jmm_llvm.Lexer.Reserved.{Names, is_reserved-Names}
use jmm_llvm.Lexer.Comments.{between, moved}

unfoldable pub Passes : (ℕ → Bool) → Bytes → Type 0
Passes test [] = Unit {0}
Passes test (c ∷ cs) = (test c ≡ true) × Passes test cs

-- The lexer `l` with `cs` behind its lexeme, read from the front of the stream.
abbrev taken : CharLexer → Bytes → Bytes → Bytes → CharLexer
taken l cs before ds = record l {
  curr_lexeme = l.curr_lexeme ++ cs;
  input = between (moved cs before) ds;
}

take_while-Passes :
    (test : ℕ → Bool) (l : CharLexer) (cs before : Bytes) (d : ℕ) (ds : Bytes) (f : ℕ)
    → Passes test cs
    → test d ≡ false
    → length cs < f
    → take_while test f (record l { input = between before (cs ++ d ∷ ds) })
      ≡ ok (taken l cs before (d ∷ ds))
unfolding take_while Stream.peek Stream.get moved Passes
take_while-Passes test l cs before d ds zero p stop h = absurd (omega arith)
take_while-Passes test l [] before d ds (suc f) p stop h =
    rw (stop, take_while)
      (ap (λ w. ok (record l { curr_lexeme = w; input = between before (d ∷ ds) }))
        (sym (append-nil l.curr_lexeme)))
take_while-Passes test l (c ∷ cs) before d ds (suc f) (p, ps) stop h =
    rw (p, take_while)
      (take_while-Passes test (push c l) cs (c ∷ before) d ds f ps stop (omega arith)
        ∙ ap
            (λ w.
              ok (record l { curr_lexeme = w; input = between (moved cs (c ∷ before)) (d ∷ ds) }))
            (append_assoc l.curr_lexeme (c ∷ []) cs))

-- The ladder on a byte that starts a word.
dispatch-word :
    (f c : ℕ) (l : CharLexer)
    → (is_alpha c || c == b'_') ≡ true
    → dispatch f c l ≡ (is_identifier f l >>= λ l'. ok (true, l'))
unfolding dispatch
dispatch-word f c l a =
    let newline : (c == b'\n') ≡ false = ground arith in
    let space : is_space c ≡ false = ground arith in rw newline (rw space (rw a refl))

dispatch-digit :
    (f c : ℕ) (l : CharLexer)
    → is_digit c ≡ true
    → dispatch f c l ≡ (is_numeric f l >>= λ l'. ok (true, l'))
unfolding dispatch
dispatch-digit f c l a =
    let newline : (c == b'\n') ≡ false = ground arith in
    let space : is_space c ≡ false = ground arith in
    let word : (is_alpha c || c == b'_') ≡ false = ground arith in
    rw newline (rw space (rw word (rw a refl)))

-- In front of a word that a byte `d` outside it ends, `lex` takes the whole word: a reserved word gives
-- its token and no lexeme, any other word gives `id` with the word as its lexeme. The input stands in front
-- of `d`.
pub lex-word :
    (l : CharLexer) (c : ℕ) (cs before : Bytes) (d : ℕ) (ds : Bytes)
    → (is_alpha c || c == b'_') ≡ true
    → Passes is_word cs
    → is_word d ≡ false
    → (t : Token) × (kept : Bytes) × Names (c ∷ cs) t kept
      × (lex (record l { input = between before (c ∷ cs ++ d ∷ ds) })
          ≡ ok (record l {
            curr_lexeme = kept;
            curr_token = t;
            input = between (moved (c ∷ cs) before) (d ∷ ds);
          }))
unfolding lex lex_loop lex_round is_identifier Stream.peek Stream.get moved
lex-word l c cs before d ds a p stop =
    let f : ℕ = suc (suc (suc (length (cs ++ d ∷ ds)))) in
    let blank = record l { curr_lexeme = []; input = between before (c ∷ cs ++ d ∷ ds) } in
    let first = record l { curr_lexeme = c ∷ [] } in
    let enough : length cs < f = omega (arith, length-append cs (d ∷ ds)) in
    let word = take_while-Passes is_word first cs (c ∷ before) d ds f p stop enough in
    let read = record l {
      curr_lexeme = c ∷ cs;
      curr_token = Token.id;
      input = between (moved (c ∷ cs) before) (d ∷ ds);
    } in
    let (t, kept, n, e) = is_reserved-Names read refl in
    (
      t,
      kept,
      n,
      ap (λ o. o >>= continue (lex_loop f)) (dispatch-word f c blank a)
          ∙ ap
              (λ o.
                ((o >>= λ l'. ok (is_reserved (set_token Token.id l'))) >>= λ l'. ok (true, l'))
                >>= continue (lex_loop f))
              word
          ∙ ap ok e,
    )

-- In front of a number that a byte `d` other than a digit ends, `lex` returns `num` with the digits
-- as its lexeme, and the input stands in front of `d`.
pub lex-number :
    (l : CharLexer) (c : ℕ) (cs before : Bytes) (d : ℕ) (ds : Bytes)
    → Passes is_digit (c ∷ cs)
    → is_digit d ≡ false
    → lex (record l { input = between before (c ∷ cs ++ d ∷ ds) })
      ≡ ok (record l {
        curr_lexeme = c ∷ cs;
        curr_token = Token.num;
        input = between (moved (c ∷ cs) before) (d ∷ ds);
      })
unfolding lex lex_loop lex_round is_numeric Stream.peek Passes moved
lex-number l c cs before d ds p stop =
    let f : ℕ = suc (suc (suc (length (cs ++ d ∷ ds)))) in
    let blank = record l { curr_lexeme = []; input = between before (c ∷ cs ++ d ∷ ds) } in
    let enough : suc (length cs) < f = omega (arith, length-append cs (d ∷ ds)) in
    let word =
      take_while-Passes is_digit (record l { curr_lexeme = [] }) (c ∷ cs) before d ds f p stop
        enough in
    ap (λ o. o >>= continue (lex_loop f)) (dispatch-digit f c blank p.0)
    ∙ ap
        (λ o.
          ((o >>= λ l'. ok (set_token Token.num l')) >>= λ l'. ok (true, l'))
          >>= continue (lex_loop f))
        word
