-- ===== src/Semantic/Program.antt =====
-- Whole programs: the shape from the parser, what each pass establishes, and the number of mains.
use jmm_llvm.Prelude.{◌≡◌, ℕ, ◌+◌, Bool, true, false, Option, some, List, [], ◌∷◌, Bytes}
use jmm_llvm.Common.Types.{VType}
use jmm_llvm.Common.Symbol.{Symbol}
use jmm_llvm.Common.Ast.{Children, ParamDecl, Decl, gvar_decl, func_decl, mfunc_decl, Program}
use jmm_llvm.Semantic.Breaks.{AllBreaksInside}
use jmm_llvm.Semantic.Rules.{ChildrenTyped}
use jmm_llvm.Semantic.Shape.{Shaped, Resolved, InChildren}

-- From the parser: the expressions of each body are shaped.
pub data ShapedDecl : Decl → Type 0 where
  gvar : {l : ℕ} {x : Bytes} {a : VType} {o : Option Symbol} → ShapedDecl (gvar_decl l x a o)
  func :
      {l : ℕ} {x : Bytes} {a : VType} {ps : List ParamDecl} {body : Children} {o : Option Symbol}
      → InChildren Shaped body
      → ShapedDecl (func_decl l x a ps body o)
  main :
      {l : ℕ} {x : Bytes} {body : Children} {o : Option Symbol}
      → InChildren Shaped body
      → ShapedDecl (mfunc_decl l x body o)

-- From the globals' visitor: each function has its symbol.
pub data Entered : Decl → Type 0 where
  gvar : {l : ℕ} {x : Bytes} {a : VType} {o : Option Symbol} → Entered (gvar_decl l x a o)
  func :
      {l : ℕ} {x : Bytes} {a : VType} {ps : List ParamDecl} {body : Children} {s : Symbol}
      → s.v_type ≡ a
      → InChildren Shaped body
      → Entered (func_decl l x a ps body (some s))
  main :
      {l : ℕ} {x : Bytes} {body : Children} {s : Symbol}
      → s.v_type ≡ VType.void
      → InChildren Shaped body
      → Entered (mfunc_decl l x body (some s))

-- From the function visitor: names are resolved and each `break` stands in a loop.
pub data Checked : Decl → Type 0 where
  gvar : {l : ℕ} {x : Bytes} {a : VType} {o : Option Symbol} → Checked (gvar_decl l x a o)
  func :
      {l : ℕ} {x : Bytes} {a : VType} {ps : List ParamDecl} {body : Children} {s : Symbol}
      → s.v_type ≡ a
      → InChildren Resolved body
      → AllBreaksInside 0 body
      → Checked (func_decl l x a ps body (some s))
  main :
      {l : ℕ} {x : Bytes} {body : Children} {s : Symbol}
      → s.v_type ≡ VType.void
      → InChildren Resolved body
      → AllBreaksInside 0 body
      → Checked (mfunc_decl l x body (some s))

-- From the type visitor: each body is typed for the return type of its function.
pub data DeclTyped : Decl → Type 0 where
  gvar : {l : ℕ} {x : Bytes} {a : VType} {o : Option Symbol} → DeclTyped (gvar_decl l x a o)
  func :
      {l : ℕ} {x : Bytes} {a : VType} {ps : List ParamDecl} {body : Children} {o : Option Symbol}
      → ChildrenTyped a body
      → DeclTyped (func_decl l x a ps body o)
  main :
      {l : ℕ} {x : Bytes} {body : Children} {o : Option Symbol}
      → ChildrenTyped VType.void body
      → DeclTyped (mfunc_decl l x body o)

-- `P` holds of every declaration.
abbrev pub Every : (Decl → Type 0) → Program → Type 0
Every P [] = Unit {0}
Every P (d ∷ ds) = P d × Every P ds

abbrev pub is_main_decl : Decl → Bool
is_main_decl (mfunc_decl _ _ _ _) = true
is_main_decl (gvar_decl _ _ _ _) = false
is_main_decl (func_decl _ _ _ _ _ _) = false

abbrev pub count_bool : Bool → ℕ
count_bool true = 1
count_bool false = 0

-- The number of main functions.
abbrev pub mains : Program → ℕ
mains [] = 0
mains (d ∷ ds) = count_bool (is_main_decl d) + mains ds
