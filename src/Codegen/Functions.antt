-- ===== src/Codegen/Functions.antt =====
-- codegen/codegen_ir.cpp: the `codegen` of functions.
pub mod Finished
pub mod Generated
use jmm_llvm.Prelude.{ℕ, Bool, true, false, some, none, ◌∷◌, [], List, Bytes, codes, if◌then◌else◌}
use jmm_llvm.Common.Outcome.{Outcome, ok, exit, fault, ◌>>=◌, missing_function, warning}
use jmm_llvm.Common.Ast.{ParamDecl, Decl, gvar_decl, func_decl, mfunc_decl, Program, Children}
use jmm_llvm.Codegen.Llvm.{Llvm, Instruction}
use jmm_llvm.Codegen.State.{
  Codegen, emit, new_block, set_point, set_value, with_state, current_block,
}
use jmm_llvm.Codegen.Statements.{codegen_children}

module _ (llvm : Llvm) where
  open llvm use {Value, Block, Function}

  -- `getFunction`, and the error where it returns a null pointer.
  unfoldable pub find_function : Bytes → ℕ → Codegen llvm → Outcome Function
  find_function name line c = elim (llvm.get_function name c.state) [
    | some f ↦ ok f
    | none ↦ exit (missing_function name line)
  ]

  -- The loop over the arguments, with an iterator over the parameters that is not tested for its end.
  unfoldable pub store_args : List Value → List ParamDecl → Codegen llvm → Outcome (Codegen llvm)
  store_args [] ps c = ok c
  store_args (arg ∷ rest) [] c = fault
  store_args (arg ∷ rest) (p ∷ ps) c = do
    (alloc, c₁) ←
        emit llvm (Instruction.alloca (llvm.value_type arg) (llvm.value_name arg c.state)) c
    (_, c₂) ← emit llvm (Instruction.store arg alloc) c₁
    c₃ ← set_value llvm p.symbol alloc c₂
    store_args rest ps c₃

  -- The instruction behind the first `ret` is erased, and the loop over the block ends there.
  unfoldable pub erase_after_return : Bool → List Value → llvm.State → llvm.State
  erase_after_return found [] s = s
  erase_after_return true (i ∷ is) s = llvm.erase i s
  erase_after_return false (i ∷ is) s = erase_after_return (llvm.is_return i s) is s

  -- A block without a terminator returns, in a `void` function, or traps.
  unfoldable pub terminate : Function → Block → Codegen llvm → Outcome (Codegen llvm)
  terminate f b c =
      if llvm.returns_void f
      then (do c₁ ← set_point llvm b c; (_, c₂) ← emit llvm Instruction.ret_void c₁; ok c₂)
      else (do
        l ← warning c.logger
        let (trap, s) = llvm.trap_intrinsic c.state
        c₁ ← set_point llvm b (record c { logger = l; state = s })
        (_, c₂) ← emit llvm (Instruction.call trap [] []) c₁
        (_, c₃) ← emit llvm Instruction.unreachable c₂
        ok c₃)

  unfoldable pub finish_block : Function → Block → Codegen llvm → Outcome (Codegen llvm)
  finish_block f b c =
      let c₁ = with_state llvm (erase_after_return false (llvm.instructions b c.state) c.state) c in
      if llvm.terminated b c₁.state then ok c₁ else terminate f b c₁

  -- The loop over the function's blocks adds none.
  unfoldable pub finish_blocks : Function → List Block → Codegen llvm → Outcome (Codegen llvm)
  finish_blocks f [] c = ok c
  finish_blocks f (b ∷ bs) c = do c₁ ← finish_block f b c; finish_blocks f bs c₁

  unfoldable pub codegen_func :
      ℕ → Bytes → List ParamDecl → Children → Codegen llvm → Outcome (Codegen llvm)
  codegen_func line name params children c = do
    func ← find_function name line c
    (body, c₁) ← new_block llvm (codes "entry") (some func) c
    c₂ ← set_point llvm body c₁
    c₃ ← store_args (llvm.args func) params c₂
    c₄ ← codegen_children llvm children c₃
    finish_blocks func (llvm.blocks func c₄.state) c₄

  unfoldable pub codegen_main : ℕ → Bytes → Children → Codegen llvm → Outcome (Codegen llvm)
  codegen_main line name children c = do
    func ← find_function name line c
    (body, c₁) ← new_block llvm (codes "entry") (some func) (record c { main_func_id = name })
    c₂ ← set_point llvm body c₁
    c₃ ← codegen_children llvm children c₂
    block ← current_block llvm c₃
    if llvm.terminated block c₃.state
        then ok c₃
        else (do (_, c₄) ← emit llvm Instruction.ret_void c₃; ok c₄)

  unfoldable pub codegen_decl : Decl → Codegen llvm → Outcome (Codegen llvm)
  codegen_decl (gvar_decl _ _ _ _) c = ok c
  codegen_decl (func_decl line name type params children o) c =
      codegen_func line name params children c
  codegen_decl (mfunc_decl line name children o) c = codegen_main line name children c

  unfoldable pub codegen_decls : Program → Codegen llvm → Outcome (Codegen llvm)
  codegen_decls [] c = ok c
  codegen_decls (d ∷ ds) c = do c₁ ← codegen_decl d c; codegen_decls ds c₁
