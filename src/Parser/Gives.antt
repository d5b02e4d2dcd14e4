-- ===== src/Parser/Gives.antt =====
-- What a parser's result satisfies, whenever it returns: a postcondition for each way to build a parser.
use jmm_llvm.Prelude.{◌≡◌, subst, Bool, true, false, Option, none, some, String, if◌then◌else◌}
use jmm_llvm.Common.Outcome.{Outcome, ok, exit, fault, running, Error}
use jmm_llvm.Common.Outcome
use jmm_llvm.Lexer.State.{Lexer, peek}
use jmm_llvm.Parser.Base.{Parser, non_null, error}

-- `P` holds of the value if there is one.
pub data Post {A : Type 0} (P : A → Type 0) : Outcome A → Type 0 where
  returned : {a : A} → P a → Post P (ok a)
  ended : {e : Error} → Post P (exit e)
  undefined : Post P fault
  unfinished : Post P running

-- `P` holds of the node unless it is null.
pub data IfAny {A : Type 0} (P : A → Type 0) : Option A → Type 0 where
  null : IfAny P none
  node : {a : A} → P a → IfAny P (some a)

pub null_or_any : {A : Type 0} (o : Option A) → IfAny (λ _. Unit {0}) o
null_or_any none = IfAny.null
null_or_any (some a) = IfAny.node tt

abbrev pub Gives : {I A : Type 0} → (A → Type 0) → Parser I A → Type 0
Gives {I} {A} P p = (l : Lexer I) → Post (λ (r : A × Lexer I). P r.0) (p l)

pub any : {A : Type 0} (r : Outcome A) → Post (λ _. Unit {0}) r
any (ok a) = Post.returned tt
any (exit e) = Post.ended
any fault = Post.undefined
any running = Post.unfinished

pub Post-ok : {A : Type 0} {P : A → Type 0} {r : Outcome A} {a : A} → Post P r → r ≡ ok a → P a
Post-ok {P} (Post.returned h) e = subst P (cc) h
Post-ok Post.ended e = cc
Post-ok Post.undefined e = cc
Post-ok Post.unfinished e = cc

infixl 1 ◌then_◌
pub ◌then_◌ :
    {A B : Type 0} {P : A → Type 0} {Q : B → Type 0} {r : Outcome A} {f : A → Outcome B}
    → Post P r
    → ((a : A) → P a → Post Q (f a))
    → Post Q (Outcome.◌>>=◌ r f)
Post.returned {a} h then_ k = k a h
Post.ended then_ k = Post.ended
Post.undefined then_ k = Post.undefined
Post.unfinished then_ k = Post.unfinished

pub either :
    {A : Type 0} {I : Type 0} {Q : A × Lexer I → Type 0} (b : Bool) (l : Lexer I) (x y : Parser I A)
    → Post Q (x l)
    → Post Q (y l)
    → Post Q ((elim b as (λ _. Parser I A) [ true ↦ x | false ↦ y ]) l)
either true l x y g h = g
either false l x y g h = h

pub either_if :
    {A : Type 0} {I : Type 0} {Q : A × Lexer I → Type 0} (b : Bool) (l : Lexer I) (x y : Parser I A)
    → Post Q (x l)
    → Post Q (y l)
    → Post Q ((if b then x else y) l)
either_if true l x y g h = g
either_if false l x y g h = h

pub unless_null :
    {A B I : Type 0} {P : B → Type 0} {Q : A × Lexer I → Type 0} {o : Option B} (l : Lexer I)
    (x : Parser I A) (f : B → Parser I A)
    → IfAny P o
    → Post Q (x l)
    → ((b : B) → P b → Post Q (f b l))
    → Post Q ((elim o as (λ _. Parser I A) [ none ↦ x | some b ↦ f b ]) l)
unless_null l x f IfAny.null g k = g
unless_null l x f (IfAny.node h) g k = k _ h

module _ {I A : Type 0} (lex : Lexer I → Outcome (Lexer I)) where
  pub error-Post :
      {Q : A × Lexer I → Type 0} (what : String) (l : Lexer I) → Post Q (error lex what l)
  unfolding error
  error-Post what l = any (peek lex l) then_ λ r _. Post.ended

  pub non_null-Gives :
      {P : A → Type 0} (what : String) {o : Option A} (l : Lexer I)
      → IfAny P o
      → Post (λ (r : A × Lexer I). P r.0) (non_null lex what o l)
  unfolding non_null
  non_null-Gives what l IfAny.null = error-Post what l
  non_null-Gives what l (IfAny.node h) = Post.returned h
