-- ===== src/Codegen/Program/Scope.antt =====
-- Programs whose bodies are scoped over their own functions and global variables.
use jmm_llvm.Prelude.{
  refl, ◌||◌, ℕ, Bool, true, false, Option, some, none, List, [], ◌∷◌, Bytes, bytes_eq, length, ◌≡◌,
  arith, if◌then◌else◌,
}
use jmm_llvm.Common.Types.{VType}
use jmm_llvm.Common.Symbol.{Symbol}
use jmm_llvm.Common.Ast.{ParamDecl, Children, Decl, gvar_decl, func_decl, mfunc_decl, Program}
use jmm_llvm.Semantic.Program.{mains, is_main_decl}
use jmm_llvm.Semantic.Breaks.{AllBreaksInside}
use jmm_llvm.Codegen.Scoped.{with_address, with_address-grows, ScopedChildren}
use jmm_llvm.Codegen.Functions.Generated.{Matched}

-- Each parameter has a symbol; behind them the symbols of `after` have a value.
pub data Bound : List ParamDecl → (ℕ → Bool) → (ℕ → Bool) → Type 0 where
  nil : {live : ℕ → Bool} → Bound [] live live
  cons :
      {p : ParamDecl} {ps : List ParamDecl} {live after : ℕ → Bool} (s : Symbol)
      → p.symbol ≡ some s
      → Bound ps (with_address s.address live) after
      → Bound (p ∷ ps) live after

-- The body of a function is scoped, where the functions of `known` and the globals of `live` are.
pub data ScopedDecl (known : Bytes → Bool) (live : ℕ → Bool) : Decl → Type 0 where
  gvar :
      {l : ℕ} {x : Bytes} {a : VType} {o : Option Symbol}
      → ScopedDecl known live (gvar_decl l x a o)
  func :
      {l : ℕ} {x : Bytes} {a : VType} {ps : List ParamDecl} {body : Children} {o : Option Symbol}
      {mid after : ℕ → Bool}
      → Bound ps live mid
      → ScopedChildren known mid body after
      → AllBreaksInside 0 body
      → ScopedDecl known live (func_decl l x a ps body o)
  main :
      {l : ℕ} {x : Bytes} {body : Children} {o : Option Symbol} {after : ℕ → Bool}
      → ScopedChildren known live body after
      → AllBreaksInside 0 body
      → ScopedDecl known live (mfunc_decl l x body o)

-- The functions of a program, and those of `rts`.
abbrev pub functions_of : (Bytes → Bool) → Program → Bytes → Bool
functions_of rts [] name = rts name
functions_of rts (gvar_decl _ _ _ _ ∷ ds) name = functions_of rts ds name
functions_of rts (func_decl _ x _ _ _ _ ∷ ds) name =
    if bytes_eq x name then true else functions_of rts ds name
functions_of rts (mfunc_decl _ x _ _ ∷ ds) name =
    if bytes_eq x name then true else functions_of rts ds name

-- The addresses of a program's global variables.
abbrev pub globals_of : Program → ℕ → Bool
globals_of [] a = false
globals_of (gvar_decl _ _ _ (some s) ∷ ds) a = with_address s.address (globals_of ds) a
globals_of (gvar_decl _ _ _ none ∷ ds) a = globals_of ds a
globals_of (func_decl _ _ _ _ _ _ ∷ ds) a = globals_of ds a
globals_of (mfunc_decl _ _ _ _ ∷ ds) a = globals_of ds a

pub Bound-grows :
    {ps : List ParamDecl} {live after : ℕ → Bool}
    → Bound ps live after
    → (a : ℕ) → live a ≡ true
    → after a ≡ true
Bound-grows Bound.nil a e = e
Bound-grows {live} (Bound.cons s _ b) a e = Bound-grows b a (with_address-grows s.address live a e)

pub Bound-Matched :
    {A : Type 0} (args : List A) {ps : List ParamDecl} {live after : ℕ → Bool}
    → length args ≡ length ps
    → Bound ps live after
    → Matched args ps live after
Bound-Matched [] e Bound.nil = Matched.nil
Bound-Matched (a ∷ args) e (Bound.cons s d b) =
    Matched.cons s d (Bound-Matched args (omega arith) b)
Bound-Matched (a ∷ args) e Bound.nil = ground arith
Bound-Matched [] e (Bound.cons s d b) = ground arith

-- A main function among the declarations.
abbrev pub some_main : Program → Bool
some_main [] = false
some_main (d ∷ ds) = is_main_decl d || some_main ds

pub mains-some_main : (ds : Program) → mains ds ≡ 1 → some_main ds ≡ true
mains-some_main [] e = ground arith
mains-some_main (gvar_decl _ _ _ _ ∷ ds) e = mains-some_main ds (omega arith)
mains-some_main (func_decl _ _ _ _ _ _ ∷ ds) e = mains-some_main ds (omega arith)
mains-some_main (mfunc_decl _ _ _ _ ∷ ds) e = refl
