-- ===== src/Codegen/Globals.antt =====
-- codegen/codegen_globals.cpp: `CodegenGlobals`, the pass over the declarations that comes first.
pub mod Provided
use jmm_llvm.Prelude.{true, false, Option, some, none, ◌∷◌, [], List, Bytes, map, if◌then◌else◌}
use jmm_llvm.Common.Types.{VType}
use jmm_llvm.Common.Symbol.{Symbol}
use jmm_llvm.Common.Outcome.{Outcome, ok, exit, fault, ◌>>=◌, void_variable}
use jmm_llvm.Common.Ast.{ParamDecl, Decl, gvar_decl, func_decl, mfunc_decl, Program}
use jmm_llvm.Codegen.Llvm.{Llvm}
use jmm_llvm.Codegen.State.{Codegen, given, get_type, set_value, with_state}

module _ (llvm : Llvm) where
  open llvm use {State, Value, FunctionType}

  unfoldable pub prototype : VType → Option (List VType) → FunctionType
  prototype type none = llvm.function_type (get_type llvm type) [] false
  prototype type (some ps) =
      llvm.function_type (get_type llvm type) (map (λ p. get_type llvm p) ps) false

  -- The loop names the first argument: the iterator over the arguments does not move.
  unfoldable pub name_first : Value → List ParamDecl → State → State
  name_first arg [] s = s
  name_first arg (p ∷ ps) s = name_first arg ps (
      if llvm.ty_eq (get_type llvm p.type) (llvm.value_type arg)
      then llvm.set_value_name arg p.id s
      else s)

  -- A parameter where the function has no argument reads past the end.
  unfoldable pub name_args : List Value → List ParamDecl → State → Outcome State
  name_args args [] s = ok s
  name_args [] (p ∷ ps) s = fault
  name_args (arg ∷ args) (p ∷ ps) s = ok (name_first arg (p ∷ ps) s)

  unfoldable pub new_function :
      Bytes → VType → List ParamDecl → Option Symbol → Codegen llvm → Outcome (Codegen llvm)
  new_function name type params o c = do
    symbol ← given o
    let (func, s) = llvm.create_function (prototype type symbol.param_types) name c.state
    t ← name_args (llvm.args func) params s
    ok (with_state llvm t c)

  unfoldable pub new_main : Bytes → Codegen llvm → Outcome (Codegen llvm)
  new_main name c =
      let (_, s) = llvm.create_function (llvm.function_type llvm.void_ty [] false) name c.state in
      ok (with_state llvm s c)

  unfoldable pub make_global : Bytes → VType → State → Outcome (Value × State)
  make_global name VType.int s =
      ok (llvm.new_global llvm.int32 false (some (llvm.const_int 0)) name s)
  make_global name VType.str s = ok (llvm.new_global llvm.int32_ptr true none name s)
  make_global name VType.bool s =
      ok (llvm.new_global llvm.int1 false (some (llvm.const_bool false)) name s)
  make_global name VType.void s = exit void_variable

  unfoldable pub new_variable :
      Bytes → VType → Option Symbol → Codegen llvm → Outcome (Codegen llvm)
  new_variable name type o c = do
    (gvar, s) ← make_global name type c.state
    set_value llvm o gvar (with_state llvm s c)

  unfoldable pub visit_decl : Decl → Codegen llvm → Outcome (Codegen llvm)
  visit_decl (func_decl line name type params body o) c = new_function name type params o c
  visit_decl (mfunc_decl line name body o) c = new_main name c
  visit_decl (gvar_decl line name type o) c = new_variable name type o c

  unfoldable pub visit : Program → Codegen llvm → Outcome (Codegen llvm)
  visit [] c = ok c
  visit (d ∷ ds) c = do c₁ ← visit_decl d c; visit ds c₁
