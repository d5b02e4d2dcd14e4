-- ===== src/Parser/Enough.antt =====
-- The measure on which the parser ends: how many tokens the lexer can still give, the one that was peeked
-- and not consumed included. What each leaf of parser/parser.cpp takes from it.
use jmm_llvm.Prelude.{◌<◌, leb, Bytes, not, ap₂, ap, sym}
use jmm_llvm.Prelude.{
  ◌*◌, ℕ, ◌+◌, ◌≤◌, Bool, true, false, Option, none, some, List, [], ◌∷◌, String, ◌≡◌, refl, arith,
  if◌then◌else◌, Bool-cases, inl, inr, subst, ap, sym, ◌∙◌,
}
use jmm_llvm.Common.Token.{Token, tok_eq, tok_eq_iff}
use jmm_llvm.Common.Outcome.{weaken, Outcome, ok, exit, Ensures, ◌⟫◌}
use jmm_llvm.Common.Outcome
use jmm_llvm.Lexer.State.{Lexer, peek, consume}
use jmm_llvm.Parser.Base.{
  ulong_max, decimal, Parser, match, match_any, error, require, non_null, type, identifier, number,
  literal, stoul_int32,
}
pub mod Leaves
pub mod Expressions
pub mod Statements
pub mod Programs
pub mod Tokens
pub mod Text

abbrev pub is_real : Token → Bool
is_real Token.t_eof = false
is_real _ = true

-- What a token counts: the end of the file can be read again and again.
abbrev pub pending : Token → ℕ
pending t = if is_real t then 1 else 0

abbrev pub owed : Bool → Token → ℕ → ℕ
owed true t n = n
owed false t n = pending t + n

abbrev pub weight : Bool → ℕ
weight true = 1
weight false = 0

abbrev pub found {ℓ} : {A : Type ℓ} → Option A → Bool
found none = false
found (some a) = true

abbrev pub Real : List Token → Type 0
Real [] = Unit
Real (t ∷ ts) = (is_real t ≡ true) × Real ts

not_true : (b : Bool) → not b ≡ true → b ≡ false
not_true true e = cc
not_true false e = refl

pub chosen :
    {A : Type 0} {Q : A → Type 0} (b : Bool) {x y : Outcome A}
    → (b ≡ true → Ensures Q x)
    → (b ≡ false → Ensures Q y)
    → Ensures Q (if b then x else y)
chosen true g h = g refl
chosen false g h = h refl

pending-real : (t : Token) → is_real t ≡ true → pending t ≡ 1
pending-real t e = rw e refl

-- The two ways that a parser goes on behind a test.
pub either :
    {I : Type 0} {A : Type 0} {Q : A × Lexer I → Type 0} (W : Bool → Type 0) (b : Bool)
    (l : Lexer I) (x y : Parser I A)
    → W b
    → (W true → Ensures Q (x l))
    → (W false → Ensures Q (y l))
    → Ensures Q ((elim b as (λ _. Parser I A) [ true ↦ x | false ↦ y ]) l)
either W true l x y w g h = g w
either W false l x y w g h = h w

pub either_if :
    {I : Type 0} {A : Type 0} {Q : A × Lexer I → Type 0} (W : Bool → Type 0) (b : Bool)
    (l : Lexer I) (x y : Parser I A)
    → W b
    → (W true → Ensures Q (x l))
    → (W false → Ensures Q (y l))
    → Ensures Q ((if b then x else y) l)
either_if W true l x y w g h = g w
either_if W false l x y w g h = h w

pub unless_null :
    {I : Type 0} {A B : Type 0} {Q : A × Lexer I → Type 0} (W : Bool → Type 0) (o : Option B)
    (l : Lexer I) (x : Parser I A) (f : B → Parser I A)
    → W (found o)
    → (W false → Ensures Q (x l))
    → ((b : B) → W true → Ensures Q (f b l))
    → Ensures Q ((elim o as (λ _. Parser I A) [ none ↦ x | some b ↦ f b ]) l)
unless_null W none l x f w g h = g w
unless_null W (some b) l x f w g h = h b w

-- The lexer goes on from each input that is `Good`, neither faulting nor running on, and leaves a good one,
-- on which `left` is smaller by one but at the end of the file.
abbrev pub Advances : {I : Type 0} → (Lexer I → Outcome (Lexer I)) → (I → Type 0) → (I → ℕ) → Type 0
Advances {I} lex Good left =
    (l : Lexer I)
    → Good l.input
    → Ensures
        (λ (l' : Lexer I). Good l'.input × (pending l'.curr_token + left l'.input ≤ left l.input))
        (lex l)

-- What the parser reads from.
pub record Source (I : Type 0) : Type 1 where
  pub lex : Lexer I → Outcome (Lexer I)
  pub Good : I → Type 0
  pub left : I → ℕ
  pub advances : Advances lex Good left

module _ {I : Type 0} (s : Source I) where
  abbrev pub size : Lexer I → ℕ
  size l = owed l.consumed l.curr_token (s.left l.input)

  -- The lexer `l'` is good and at least `n` tokens behind `l`.
  abbrev pub Behind : ℕ → Lexer I → Lexer I → Type 0
  Behind n l l' = s.Good l'.input × (n + size l' ≤ size l)

  -- The run ends without undefined behaviour, having taken as many tokens as `taken` says of its value.
  abbrev pub Ends : {A : Type 0} → (A → ℕ) → Lexer I → Outcome (A × Lexer I) → Type 0
  Ends {A} taken l r = Ensures (λ (p : A × Lexer I). Behind (taken p.0) l p.1) r

  -- So does each run of the parser from a lexer that can give fewer than `n` tokens.
  abbrev pub Runs : {A : Type 0} → ℕ → Parser I A → Type 0
  Runs n p = (l : Lexer I) → s.Good l.input → size l < n → Ends (λ _. 0) l (p l)

  -- The rest of a run counts for the whole.
  pub since :
      {A : Type 0} (n : ℕ) (l l' : Lexer I) {r : Outcome (A × Lexer I)}
      → Behind n l l'
      → Ends (λ _. 0) l' r
      → Ends (λ _. 0) l r
  since n l l' (_, h) e = weaken (λ _ (g', h'). (g', omega arith)) e

  pub peek-Ends :
      (l : Lexer I)
      → s.Good l.input
      → Ensures
          (λ (p : Token × Lexer I).
            Behind 0 l p.1 × (p.1.consumed ≡ false) × (p.1.curr_token ≡ p.0))
          (peek s.lex l)
  unfolding peek
  peek-Ends l g =
      chosen (not l.consumed) (λ e. Ensures.returns ((g, omega arith), not_true l.consumed e, refl))
        λ e. s.advances l g ⟫ λ l' (g', h).
          Ensures.returns ((g', fresh l.consumed l.curr_token e h), refl, refl)
    where
      fresh : (c : Bool) {m n : ℕ} (t : Token) → not c ≡ false → m ≤ n → 0 + m ≤ owed c t n
      fresh true t e h = omega arith
      fresh false t e h = cc

  pub peek_any : (l : Lexer I) → s.Good l.input → Ends (λ _. 0) l (peek s.lex l)
  peek_any l g = weaken (λ _ (b, _, _). b) (peek-Ends l g)

  pub match-Ends :
      (t : Token)
      → is_real t ≡ true
      → (l : Lexer I) → s.Good l.input
      → Ends weight l (match s.lex t l)
  unfolding match consume
  match-Ends t real l g = peek-Ends l g ⟫ λ (t', l') ((g', h), c, e).
      chosen (tok_eq t' t)
        (λ same.
          Ensures.returns (g', taken l t' l' h c e (same_pending t' ((tok_eq_iff t' t).0 same))))
        λ _. Ensures.returns (g', h)
    where
      same_pending : (t' : Token) → t' ≡ t → pending t' ≡ 1
      same_pending t' e = subst (λ u. pending u ≡ 1) (sym e) (pending-real t real)

      taken :
          (l : Lexer I) (t : Token) (l' : Lexer I)
          → 0 + size l' ≤ size l
          → l'.consumed ≡ false
          → l'.curr_token ≡ t
          → pending t ≡ 1
          → 1 + s.left l'.input ≤ size l
      taken l t l' h c e p =
          subst (λ n. n ≤ size l)
            (ap₂ (λ b u. owed b u (s.left l'.input)) c e ∙ ap (λ n. n + s.left l'.input) p)
            (omega arith)

  pub match_any-Ends :
      (ts : List Token)
      → Real ts
      → (l : Lexer I) → s.Good l.input
      → Ends weight l (match_any s.lex ts l)
  unfolding match_any
  match_any-Ends [] real l g = Ensures.returns (g, omega arith)
  match_any-Ends (t ∷ ts) (r, real) l g = match-Ends t r l g ⟫ λ (m, l') b.
      either_if (λ m. Behind (weight m) l l') m l' _ _ b (λ b'. Ensures.returns b')
        λ (g', h). weaken (λ _ (g'', h'). (g'', omega arith)) (match_any-Ends ts real l' g')

  pub error-Ends :
      {A : Type 0} {Q : A × Lexer I → Type 0} (what : String) (l : Lexer I)
      → s.Good l.input
      → Ensures Q (error s.lex what l)
  unfolding error
  error-Ends what l g = peek-Ends l g ⟫ λ _ _. Ensures.exits

  pub require-Ends :
      (t : Token) (what : String)
      → is_real t ≡ true
      → (l : Lexer I) → s.Good l.input
      → Ends (λ _. 1) l (require s.lex t what l)
  require-Ends t what real l g = match-Ends t real l g ⟫ λ (m, l') b.
      either_if (λ m. Behind (weight m) l l') m l' _ _ b (λ b'. Ensures.returns b')
        λ (g', _). error-Ends what l' g'

  -- A null node ends the run.
  pub non_null-Ends :
      {A : Type 0} (what : String) (n : ℕ) (o : Option A) (l l' : Lexer I)
      → Behind (n * weight (found o)) l l'
      → Ends (λ (_ : A). n) l (non_null s.lex what o l')
  unfolding non_null
  non_null-Ends what n none l l' (g, h) = error-Ends what l' g
  non_null-Ends what n (some a) l l' (g, h) = Ensures.returns (g, omega arith)
