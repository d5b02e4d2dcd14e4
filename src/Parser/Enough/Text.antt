-- ===== src/Parser/Enough/Text.antt =====
-- lexer/lexer.cpp on texts without string literals whose last line ends: the loops of the lexer over words,
-- numbers and comments.
pub mod Round
pub mod Whole
use jmm_llvm.Prelude.{
  none, some, ◌≤◌, ==_iff, ◌||◌, ◌||◌, Option-cases, ℕ, zero, suc, ◌+◌, ◌≤◌, ◌<◌, Bool, true, false,
  List, [], ◌∷◌, Bytes, ◌==◌, ◌≡◌, ◌≢◌, refl, subst, sym, arith, length, Bool-cases, inl, inr,
}
use jmm_llvm.Common.Token.{Token}
use jmm_llvm.Common.Outcome.{Outcome, ok, warning_lem, ◌>>=◌, Ensures, returns, ◌⟫◌, weaken}
use jmm_llvm.Lexer.Stream.{Stream}
use jmm_llvm.Lexer.Stream
use jmm_llvm.Lexer.Comments.{between}
use jmm_llvm.Lexer.Scan.{
  warn, is_space, is_alpha, is_digit, warn, push, CharLexer, to_char, is_digit, is_word, set_token,
  take_while, is_reserved, find_word, reserved_words, is_identifier, is_numeric,
}
use jmm_llvm.Lexer.Operators.{
  is_special, is_operator, is_operator, is_special, Operator, operator_of, special_of, second_byte,
}
use jmm_llvm.Lexer.Lex.{
  continue, lex_round, lex_loop, lex, dispatch, slash, other, unknown, skip_comment, skip_byte,
}
use jmm_llvm.Parser.Enough.{Advances, Source, chosen, pending, is_real}

-- No quote, and a newline at the end, unless the text is empty.
abbrev pub Text : Bytes → Type 0
Text [] = Unit {0}
Text (c ∷ []) = c ≡ b'\n'
Text (c ∷ d ∷ cs) = (c ≢ b'"') × Text (d ∷ cs)

pub Text-tail : (c : ℕ) (cs : Bytes) → Text (c ∷ cs) → Text cs
Text-tail c [] h = tt
Text-tail c (d ∷ cs) (_, h) = h

pub Text-head : (c : ℕ) (cs : Bytes) → Text (c ∷ cs) → (c == b'"') ≡ false
Text-head c [] h = ground arith
Text-head c (d ∷ cs) (h, _) = ground arith

-- `s'` holds a text that is shorter than that of `s`, by `n` bytes at least.
abbrev pub Shrinks : ℕ → Stream → Stream → Type 0
Shrinks n s s' = Text s'.rest × (n + length s'.rest ≤ length s.rest)

abbrev pub stream : Bytes → Bytes → Bool → Bool → Stream
stream before rest e d = record { before = before; rest = rest; eofbit = e; failbit = d }

peek-Shrinks :
    (before rest : Bytes) (e d : Bool)
    → Text rest
    → Shrinks 0 (stream before rest e d) (Stream.peek (stream before rest e d)).1
unfolding Stream.peek
peek-Shrinks before rest true d t = (t, omega arith)
peek-Shrinks before rest false true t = (t, omega arith)
peek-Shrinks before [] false false t = (t, omega arith)
peek-Shrinks before (c ∷ cs) false false t = (t, omega arith)

get-Shrinks :
    (before rest : Bytes) (e d : Bool)
    → Text rest
    → Shrinks 0 (stream before rest e d) (Stream.get (stream before rest e d)).1
unfolding Stream.get
get-Shrinks before rest true d t = (t, omega arith)
get-Shrinks before rest false true t = (t, omega arith)
get-Shrinks before [] false false t = (t, omega arith)
get-Shrinks before (c ∷ cs) false false t = (Text-tail c cs t, omega arith)

-- The loop over the bytes of a word or a number ends, with a round of fuel for each byte that is left.
pub take_while-Shrinks :
    (test : ℕ → Bool)
    → test 255 ≡ false
    → (f : ℕ) (l : CharLexer) (before rest : Bytes) (e d : Bool) → Text rest
    → length rest < f
    → Ensures
        (λ (l' : CharLexer). Shrinks 0 (stream before rest e d) l'.input)
        (take_while test f (record l { input = stream before rest e d }))
unfolding take_while Stream.peek Stream.get
take_while-Shrinks test n zero l before rest e d t h = absurd (omega arith)
take_while-Shrinks test n (suc f) l before rest true d t h =
    rw (n, take_while) (returns (t, omega arith))
take_while-Shrinks test n (suc f) l before rest false true t h =
    rw (n, take_while) (returns (t, omega arith))
take_while-Shrinks test n (suc f) l before [] false false t h =
    rw (n, take_while) (returns (t, omega arith))
take_while-Shrinks test n (suc f) l before (c ∷ cs) false false t h = elim (Bool-cases (test c)) [
  | inl more ↦
      rw (more, take_while)
        (weaken (λ _ (t', b). (t', omega arith))
          (take_while-Shrinks test n f (push c l) (c ∷ before) cs false false (Text-tail c cs t)
            (omega arith)))
  | inr enough ↦ rw (enough, take_while) (returns (t, omega arith))
]

pub take_while_first :
    (test : ℕ → Bool)
    → test 255 ≡ false
    → (f : ℕ) (l : CharLexer) (before : Bytes) (c : ℕ) (cs : Bytes) → Text (c ∷ cs)
    → length (c ∷ cs) < f
    → test c ≡ true
    → Ensures
        (λ (l' : CharLexer). Shrinks 1 (between before (c ∷ cs)) l'.input)
        (take_while test f (record l { input = between before (c ∷ cs) }))
unfolding take_while Stream.peek Stream.get
take_while_first test n zero l before c cs t h more = absurd (omega arith)
take_while_first test n (suc f) l before c cs t h more =
    rw (more, take_while)
      (weaken (λ _ (t', b). (t', omega arith))
        (take_while-Shrinks test n f (push c l) (c ∷ before) cs false false (Text-tail c cs t)
          (omega arith)))

-- The loop over a comment stops at the end of the line.
pub skip_comment-Shrinks :
    (f : ℕ) (before : Bytes) (c : ℕ) (cs : Bytes)
    → Text (c ∷ cs)
    → length (c ∷ cs) < f
    → Ensures (Shrinks 0 (between before (c ∷ cs))) (skip_comment f (between before (c ∷ cs)))
unfolding skip_comment Stream.peek Stream.get
skip_comment-Shrinks zero before c cs t h = absurd (omega arith)
skip_comment-Shrinks (suc f) before c [] t h =
    let end : (c == b'\n') ≡ true = ground arith in
    rw (end, skip_comment) (returns (t, omega arith))
skip_comment-Shrinks (suc f) before c (d ∷ ds) (q, t) h = elim (Bool-cases (c == b'\n')) [
  | inl end ↦ rw (end, skip_comment) (returns ((q, t), omega arith))
  | inr more ↦
      rw (more, skip_comment)
        (weaken (λ _ (t', b). (t', omega arith))
          (skip_comment-Shrinks f (c ∷ before) d ds t (omega arith)))
]

stream_peek : (s : Stream) → Text s.rest → Shrinks 0 s (Stream.peek s).1
stream_peek s t = peek-Shrinks s.before s.rest s.eofbit s.failbit t

stream_get : (s : Stream) → Text s.rest → Shrinks 0 s (Stream.get s).1
stream_get s t = get-Shrinks s.before s.rest s.eofbit s.failbit t

pub second_byte-Shrinks :
    (ds : List (ℕ × Token)) (l : CharLexer)
    → Text l.input.rest
    → Shrinks 0 l.input (second_byte ds l).input
unfolding second_byte
second_byte-Shrinks [] l t = (t, omega arith)
second_byte-Shrinks ((c, u) ∷ ds) l t =
    let (t₁, b₁) = stream_peek l.input t in
    let (t₂, b₂) = stream_get (Stream.peek l.input).1 t₁ in
    elim (Bool-cases (to_char (Stream.peek l.input).0 == c)) [
      | inl same ↦ rw same (t₂, omega arith)
      | inr differ ↦ rw differ (
          let (t', b) = second_byte-Shrinks ds (record l { input = (Stream.peek l.input).1 }) t₁ in
          (t', omega arith))
    ]

pub is_reserved-input : (l : CharLexer) → (is_reserved l).input ≡ l.input
unfolding is_reserved
is_reserved-input l = elim (Option-cases (find_word l.curr_lexeme reserved_words)) [
  | inl miss ↦ rw (miss, is_reserved) refl
  | inr (t, hit) ↦ rw (hit, is_reserved) refl
]
