-- ===== src/Codegen/Statements.antt =====
-- codegen/codegen_ir.cpp: the `codegen` of statements. What it returns for a statement is read by
-- nobody and is left out.
pub mod Generated
use jmm_llvm.Prelude.{Option, some, none, ◌∷◌, [], List, Bytes, codes}
use jmm_llvm.Common.Types.{VType}
use jmm_llvm.Common.Outcome.{Outcome, ok, exit, fault, ◌>>=◌, void_variable}
use jmm_llvm.Common.Ast.{
  Expr, Stmt, Children, if_stmt, if_else_stmt, while_stmt, return_stmt, break_stmt, block_stmt,
  expr_stmt, null_stmt, var_decl, no_children, child,
}
use jmm_llvm.Codegen.Llvm.{Llvm, Instruction}
use jmm_llvm.Codegen.State.{
  Codegen, emit, new_block, set_point, continue_in, current_function, set_value, with_state,
}
use jmm_llvm.Codegen.Expressions.{codegen_expr}

module _ (llvm : Llvm) where
  open llvm use {Value, Block, Function, Ty}

  abbrev pub push_context : Block → Codegen llvm → Codegen llvm
  push_context b c = record c { while_context = b ∷ c.while_context }

  -- `top` and `pop` of an empty stack are undefined behaviour.
  unfoldable pub top_context : List Block → Outcome Block
  top_context [] = fault
  top_context (b ∷ bs) = ok b

  abbrev drop_context : List Block → Codegen llvm → Outcome (Codegen llvm)
  drop_context [] c = fault
  drop_context (b ∷ bs) c = ok (record c { while_context = bs })

  unfoldable pub pop_context : Codegen llvm → Outcome (Codegen llvm)
  pop_context c = drop_context c.while_context c

  -- The type of a local variable's slot.
  unfoldable pub local_type : VType → Outcome Ty
  local_type VType.int = ok llvm.int32
  local_type VType.str = ok llvm.int8_ptr
  local_type VType.bool = ok llvm.int1
  local_type VType.void = exit void_variable

  -- The slot of a variable is made behind the other slots of the function, in its first block.
  unfoldable pub make_slot :
      Function → Bytes → VType → Codegen llvm → Outcome (Value × Codegen llvm)
  make_slot f name type c = do
    let (point, s) = llvm.save_and_clear c.state
    let c₁ = with_state llvm (llvm.set_past_allocas f s) c
    a ← local_type type
    (var, c₂) ← emit llvm (Instruction.alloca a name) c₁
    ok (var, with_state llvm (llvm.restore point c₂.state) c₂)

  unfoldable pub codegen_return : Option Expr → Codegen llvm → Outcome (Codegen llvm)
  codegen_return none c = do (_, c₁) ← emit llvm Instruction.ret_void c; ok c₁
  codegen_return (some e) c = do
    (v, c₁) ← codegen_expr llvm e c
    (_, c₂) ← emit llvm (Instruction.ret v) c₁
    ok c₂

  unfoldable mutual
    pub codegen_stmt : Stmt → Codegen llvm → Outcome (Codegen llvm)
    codegen_stmt (if_stmt line e body) c = do
      func ← current_function llvm c
      (cond, c₁) ← codegen_expr llvm e c
      (then, c₂) ← new_block llvm (codes "if.then") (some func) c₁
      (end, c₃) ← new_block llvm (codes "if.end") none c₂
      (_, c₄) ← emit llvm (Instruction.cond_br cond then end) c₃
      c₅ ← set_point llvm then c₄
      c₆ ← codegen_stmt body c₅
      (_, c₇) ← emit llvm (Instruction.br end) c₆
      continue_in llvm func end c₇
    codegen_stmt (if_else_stmt line e body other) c = do
      func ← current_function llvm c
      (cond, c₁) ← codegen_expr llvm e c
      (then, c₂) ← new_block llvm (codes "if.then") (some func) c₁
      (else_block, c₃) ← new_block llvm (codes "if.else") none c₂
      (end, c₄) ← new_block llvm (codes "if.end") none c₃
      (_, c₅) ← emit llvm (Instruction.cond_br cond then else_block) c₄
      c₆ ← set_point llvm then c₅
      c₇ ← codegen_stmt body c₆
      (_, c₈) ← emit llvm (Instruction.br end) c₇
      c₉ ← continue_in llvm func else_block c₈
      c₁₀ ← codegen_stmt other c₉
      (_, c₁₁) ← emit llvm (Instruction.br end) c₁₀
      continue_in llvm func end c₁₁
    codegen_stmt (while_stmt line e body) c = do
      func ← current_function llvm c
      (cond, c₁) ← new_block llvm (codes "while.cond") (some func) c
      (_, c₂) ← emit llvm (Instruction.br cond) c₁
      c₃ ← set_point llvm cond c₂
      (cond_val, c₄) ← codegen_expr llvm e c₃
      (loop, c₅) ← new_block llvm (codes "while.body") none c₄
      (end, c₆) ← new_block llvm (codes "while.end") none c₅
      (_, c₇) ← emit llvm (Instruction.cond_br cond_val loop end) c₆
      let c₈ = push_context end c₇
      c₉ ← continue_in llvm func loop c₈
      c₁₀ ← codegen_stmt body c₉
      (_, c₁₁) ← emit llvm (Instruction.br cond) c₁₀
      c₁₂ ← continue_in llvm func end c₁₁
      pop_context c₁₂
    codegen_stmt (return_stmt line o) c = codegen_return o c
    codegen_stmt (break_stmt line) c = do
      end ← top_context c.while_context
      (_, c₁) ← emit llvm (Instruction.br end) c
      ok c₁
    codegen_stmt (block_stmt body) c = codegen_children body c
    codegen_stmt (expr_stmt e) c = do (_, c₁) ← codegen_expr llvm e c; ok c₁
    codegen_stmt (null_stmt line) c = ok c
    codegen_stmt (var_decl line name type o) c = do
      curr_func ← current_function llvm c
      (var, c₁) ← make_slot curr_func name type c
      set_value llvm o var c₁

    pub codegen_children : Children → Codegen llvm → Outcome (Codegen llvm)
    codegen_children no_children c = ok c
    codegen_children (child s ss) c = do c₁ ← codegen_stmt s c; codegen_children ss c₁
