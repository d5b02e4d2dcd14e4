-- ===== src/Driver/Kept.antt =====
-- What the function visitor keeps of a declaration: its kind, its name, its symbol and its types.
use jmm_llvm.Prelude.{ℕ, Bool, Option, some, List, [], ◌∷◌, Bytes, length, ◌≡◌, refl, ◌∙◌, sym}
use jmm_llvm.Common.Types.{VType}
use jmm_llvm.Common.Symbol.{Symbol}
use jmm_llvm.Common.Ast.{ParamDecl, Children, Decl, gvar_decl, func_decl, mfunc_decl, Program}
use jmm_llvm.Semantic.Program.{Every}
use jmm_llvm.Codegen.Globals.Provided.{Declared, names}
use jmm_llvm.Codegen.Program.Scope.{functions_of, globals_of}

pub data Kept : Decl → Decl → Type 0 where
  gvar :
      {l : ℕ} {x : Bytes} {a : VType} {o : Option Symbol}
      → Kept (gvar_decl l x a o) (gvar_decl l x a o)
  func :
      {l : ℕ} {x : Bytes} {a : VType} {ps ps' : List ParamDecl} {body body' : Children}
      {o : Option Symbol}
      → length ps' ≡ length ps
      → Kept (func_decl l x a ps body o) (func_decl l x a ps' body' o)
  main :
      {l : ℕ} {x : Bytes} {body body' : Children} {o : Option Symbol}
      → Kept (mfunc_decl l x body o) (mfunc_decl l x body' o)

pub data AllKept : Program → Program → Type 0 where
  nil : AllKept [] []
  cons : {d d' : Decl} {ds ds' : Program} → Kept d d' → AllKept ds ds' → AllKept (d ∷ ds) (d' ∷ ds')

pub Kept-names : {ds ds' : Program} → AllKept ds ds' → names ds' ≡ names ds
Kept-names AllKept.nil = refl
Kept-names (AllKept.cons Kept.gvar ks) = rw (Kept-names ks) refl
Kept-names (AllKept.cons (Kept.func e) ks) = rw (Kept-names ks) refl
Kept-names (AllKept.cons Kept.main ks) = rw (Kept-names ks) refl

pub Kept-functions_of :
    (rts : Bytes → Bool) {ds ds' : Program}
    → AllKept ds ds'
    → (x : Bytes) → functions_of rts ds' x ≡ functions_of rts ds x
Kept-functions_of rts AllKept.nil x = refl
Kept-functions_of rts (AllKept.cons Kept.gvar ks) x = Kept-functions_of rts ks x
Kept-functions_of rts (AllKept.cons (Kept.func e) ks) x = rw (Kept-functions_of rts ks x) refl
Kept-functions_of rts (AllKept.cons Kept.main ks) x = rw (Kept-functions_of rts ks x) refl

pub Kept-globals_of :
    {ds ds' : Program} → AllKept ds ds' → (a : ℕ) → globals_of ds' a ≡ globals_of ds a
Kept-globals_of AllKept.nil a = refl
Kept-globals_of (AllKept.cons (Kept.gvar {o = Option.none}) ks) a = Kept-globals_of ks a
Kept-globals_of (AllKept.cons (Kept.gvar {o = some s}) ks) a = rw (Kept-globals_of ks a) refl
Kept-globals_of (AllKept.cons (Kept.func e) ks) a = Kept-globals_of ks a
Kept-globals_of (AllKept.cons Kept.main ks) a = Kept-globals_of ks a

pub Kept-Declared : {ds ds' : Program} → AllKept ds ds' → Every Declared ds → Every Declared ds'
Kept-Declared AllKept.nil e = tt
Kept-Declared (AllKept.cons Kept.gvar ks) (d, ds) = (d, Kept-Declared ks ds)
Kept-Declared (AllKept.cons (Kept.func e) ks) (Declared.func types r n, ds) =
    (Declared.func types r (n ∙ sym e), Kept-Declared ks ds)
Kept-Declared (AllKept.cons Kept.main ks) (d, ds) = (Declared.main, Kept-Declared ks ds)
