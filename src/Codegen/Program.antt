-- ===== src/Codegen/Program.antt =====
-- codegen/codegen_ir.cpp: the visit of the root, which makes the function `main` of the object file.
pub mod Scope
pub mod Whole
pub mod Generate
use jmm_llvm.Prelude.{false, Option, some, none, [], codes}
use jmm_llvm.Common.Outcome.{Outcome, ok, ◌>>=◌, Logger}
use jmm_llvm.Common.Ast.{Program}
use jmm_llvm.Codegen.Llvm.{Llvm, Instruction}
use jmm_llvm.Codegen.State.{Codegen, emit, new_block, set_point, with_state}
use jmm_llvm.Codegen.Expressions.{call_through}
use jmm_llvm.Codegen.Functions.{codegen_decls}
use jmm_llvm.Codegen.Runtime.{new_codegen}
use jmm_llvm.Codegen.Globals

module _ (llvm : Llvm) where
  open llvm use {State, Function}

  -- A function called `main` is renamed; else the main function is the one that was kept.
  unfoldable pub take_main : Codegen llvm → Option Function × Codegen llvm
  take_main c = elim (llvm.get_function (codes "main") c.state) [
    | some f ↦ (some f, with_state llvm (llvm.set_function_name f (codes "main.1") c.state) c)
    | none ↦ (llvm.get_function c.main_func_id c.state, c)
  ]

  unfoldable pub rename_variable : Codegen llvm → Codegen llvm
  rename_variable c = elim (llvm.get_global_variable (codes "main") c.state) [
    | some v ↦ with_state llvm (llvm.set_value_name v (codes ".main") c.state) c
    | none ↦ c
  ]

  -- `main` calls the main function and returns 0.
  unfoldable pub make_entry : Option Function → Codegen llvm → Outcome (Codegen llvm)
  make_entry mainf c = do
    let (f, s) =
        llvm.create_function (llvm.function_type llvm.int32 [] false) (codes "main") c.state
    (block, c₁) ← new_block llvm (codes "entry") (some f) (with_state llvm s c)
    c₂ ← set_point llvm block c₁
    (_, c₃) ← call_through llvm mainf [] [] c₂
    (_, c₄) ← emit llvm (Instruction.ret (llvm.const_int 0)) c₃
    ok c₄

  unfoldable pub visit_root : Program → Codegen llvm → Outcome (Codegen llvm)
  visit_root ds c = do
    c₁ ← Globals.visit llvm ds c
    c₂ ← codegen_decls llvm ds c₁
    let (mainf, c₃) = take_main c₂
    make_entry mainf (rename_variable c₃)

  -- The module of a program, from one that is empty: `Driver::compile` behind the analyzer.
  unfoldable pub generate : Program → State → Logger → Outcome (Codegen llvm)
  generate ds s l = do c ← new_codegen llvm s l; visit_root ds c
