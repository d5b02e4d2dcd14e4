-- ===== src/Lexer/Strings.antt =====
-- `isStr`: a string literal, with its escapes, against a description of how a literal spells a string.
use jmm_llvm.Prelude.{
  ℕ, zero, suc, ◌<◌, Bool, true, false, some, [], ◌∷◌, ◌++◌, Bytes, ◌==◌, ◌≡◌, ◌≢◌, refl, arith,
  length, ap, sym, ◌∙◌, length-append, append-nil, append_assoc,
}
use jmm_llvm.Common.Token.{Token}
use jmm_llvm.Common.Outcome.{ok, running, ◌>>=◌}
use jmm_llvm.Lexer.Stream
use jmm_llvm.Lexer.Scan.{CharLexer, push, escape, after_backslash, str_char, str_loop, is_str}
use jmm_llvm.Lexer.Lex.{continue, dispatch, lex, lex_loop, lex_round}
use jmm_llvm.Lexer.Comments.{between, Avoids, moved}

-- The byte behind a backslash and the byte that both stand for.
pub data Escape : ℕ → ℕ → Type 0 where
  backspace : Escape b'b' 8
  form_feed : Escape b'f' 12
  tab : Escape b't' 9
  carriage_return : Escape b'r' 13
  newline : Escape b'n' 10
  apostrophe : Escape b'\'' b'\''
  quote : Escape b'"' b'"'
  backslash : Escape b'\\' b'\\'

-- The text between the quotes and the string that it spells.
pub data Spells : Bytes → Bytes → Type 0 where
  nothing : Spells [] []
  plain :
      {c : ℕ} {es cs : Bytes}
      → c ≢ b'"'
      → c ≢ b'\\'
      → c ≢ b'\n'
      → Spells es cs
      → Spells (c ∷ es) (c ∷ cs)
  escaped : {c d : ℕ} {es cs : Bytes} → Escape c d → Spells es cs → Spells (b'\\' ∷ c ∷ es) (d ∷ cs)

escape-Escape : {c d : ℕ} → Escape c d → escape c ≡ some d
unfolding escape
escape-Escape backspace = refl
escape-Escape form_feed = refl
escape-Escape tab = refl
escape-Escape carriage_return = refl
escape-Escape newline = refl
escape-Escape apostrophe = refl
escape-Escape quote = refl
escape-Escape backslash = refl

-- The lexer `l` behind the closing quote, with `cs` added to its lexeme.
abbrev closed : CharLexer → Bytes → Bytes → Bytes → CharLexer
closed l cs before ds = record l { curr_lexeme = l.curr_lexeme ++ cs; input = between before ds }

pushed :
    (l : CharLexer) (c : ℕ) (cs before ds : Bytes)
    → closed (push c l) cs before ds ≡ closed l (c ∷ cs) before ds
pushed l c cs before ds =
    ap (λ w. record l { curr_lexeme = w; input = between before ds })
      (append_assoc l.curr_lexeme (c ∷ []) cs)

str_loop-Spells :
    {es cs : Bytes} (s : Spells es cs) (l : CharLexer) (before ds : Bytes) (f : ℕ)
    → length es < f
    → str_loop f (record l { input = between before (es ++ b'"' ∷ ds) })
      ≡ ok (closed l cs (b'"' ∷ moved es before) ds)
unfolding str_loop str_char after_backslash Stream.get moved
str_loop-Spells s l before ds zero h = absurd (omega arith)
str_loop-Spells nothing l before ds (suc f) h =
    ap (λ w. ok (record l { curr_lexeme = w; input = between (b'"' ∷ before) ds }))
      (sym (append-nil l.curr_lexeme))
str_loop-Spells (plain {c} {es} {cs} q b n s) l before ds (suc f) h =
    let not_quote : (c == b'"') ≡ false = ground arith in
    let not_backslash : (c == b'\\') ≡ false = ground arith in
    let not_newline : (c == b'\n') ≡ false = ground arith in
    rw (not_quote, str_loop)
      (rw (not_backslash, str_char)
        (rw (not_newline, str_char)
          (str_loop-Spells s (push c l) (c ∷ before) ds f (omega arith)
            ∙ ap ok (pushed l c cs (b'"' ∷ moved es (c ∷ before)) ds))))
str_loop-Spells (escaped {c} {d} {es} {cs} e s) l before ds (suc f) h =
    rw (escape-Escape e, str_loop, str_char)
      (str_loop-Spells s (push d l) (c ∷ b'\\' ∷ before) ds f (omega arith)
        ∙ ap ok (pushed l d cs (b'"' ∷ moved es (c ∷ b'\\' ∷ before)) ds))

-- In front of a quoted text that spells `cs`, `lex` returns a string literal with `cs` as its lexeme,
-- without a warning, and the input stands behind the closing quote.
pub lex-string :
    {es cs : Bytes} (s : Spells es cs) (l : CharLexer) (before ds : Bytes)
    → lex (record l { input = between before (b'"' ∷ es ++ b'"' ∷ ds) })
      ≡ ok (record l {
        curr_lexeme = cs;
        curr_token = Token.strlit;
        input = between (b'"' ∷ moved es (b'"' ∷ before)) ds;
      })
unfolding lex lex_loop lex_round dispatch is_str Stream.peek Stream.get
lex-string {es} {cs} s l before ds =
    let f : ℕ = suc (suc (suc (length (es ++ b'"' ∷ ds)))) in
    let first = record l { curr_lexeme = []; curr_token = Token.strlit } in
    let enough : length es < f = omega (arith, length-append es (b'"' ∷ ds)) in
    ap (λ o. (o >>= λ l'. ok (true, l')) >>= continue (lex_loop f))
      (str_loop-Spells s first (b'"' ∷ before) ds f enough)

-- The loop from a stream with any flags.
unclosed_fields :
    (f : ℕ) (l : CharLexer) (before rest : Bytes) (e d : Bool)
    → Avoids b'"' rest
    → Avoids b'\\' rest
    → Avoids b'\n' rest
    → str_loop f
        (record l { input = record { before = before; rest = rest; eofbit = e; failbit = d } })
      ≡ running
unfolding str_loop str_char Stream.get
unclosed_fields zero l before rest e d q b n = refl
unclosed_fields (suc f) l before rest true d q b n =
    unclosed_fields f (push 255 l) before rest true true q b n
unclosed_fields (suc f) l before rest false true q b n =
    unclosed_fields f (push 255 l) before rest false true q b n
unclosed_fields (suc f) l before [] false false q b n =
    unclosed_fields f (push 255 l) before [] true true q b n
unclosed_fields (suc f) l before (c ∷ cs) false false (q, qs) (b, bs) (n, ns) =
    let not_quote : (c == b'"') ≡ false = ground arith in
    let not_backslash : (c == b'\\') ≡ false = ground arith in
    let not_newline : (c == b'\n') ≡ false = ground arith in
    rw (not_quote, str_loop)
      (rw (not_backslash, str_char)
        (rw (not_newline, str_char)
          (unclosed_fields f (push c l) (c ∷ before) cs false false qs bs ns)))

-- When what is left of the file has no quote, backslash or newline, the loop over a string never ends:
-- however many rounds it runs, it asks for another one.
pub str_loop-unclosed :
    (f : ℕ) (l : CharLexer)
    → Avoids b'"' l.input.rest
    → Avoids b'\\' l.input.rest
    → Avoids b'\n' l.input.rest
    → str_loop f l ≡ running
str_loop-unclosed f l =
    unclosed_fields f l l.input.before l.input.rest l.input.eofbit l.input.failbit
