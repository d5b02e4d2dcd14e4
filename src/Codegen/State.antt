-- ===== src/Codegen/State.antt =====
-- codegen/codegen.h: the state of `IRCodegenVisitor` and the calls of LLVM that change it.
use jmm_llvm.Prelude.{ℕ, ◌==◌, Option, none, some, List, Bytes, if◌then◌else◌}
use jmm_llvm.Common.Types.{VType}
use jmm_llvm.Common.Symbol.{Symbol}
use jmm_llvm.Common.Outcome.{Outcome, ok, fault, ◌>>=◌, Logger}
use jmm_llvm.Codegen.Llvm.{Llvm, Instruction}

-- A pointer or an `optional` that is read.
abbrev pub given {ℓ} : {A : Type ℓ} → Option A → Outcome A
given none = fault
given (some a) = ok a

-- `values` has the field `llvm_Value` of each symbol by its address; the constructors of `Symbol` leave
-- it unset, and a read of it is undefined behaviour until it is set.
pub record Codegen (llvm : Llvm) : Type 0 where
  pub state : llvm.State
  pub values : ℕ → Option llvm.Value
  pub while_context : List llvm.Block
  pub main_func_id : Bytes
  pub logger : Logger

module _ (llvm : Llvm) where
  open llvm use {State, Value, Block, Function, Ty}

  abbrev pub with_state : State → Codegen llvm → Codegen llvm
  with_state s c = record c { state = s }

  unfoldable pub get_type : VType → Ty
  get_type VType.int = llvm.int32
  get_type VType.str = llvm.int32_ptr
  get_type VType.bool = llvm.int1
  get_type VType.void = llvm.void_ty

  unfoldable pub emit :
      Instruction Value Block Function Ty → Codegen llvm → Outcome (Value × Codegen llvm)
  emit i c = let (v, s) = llvm.build i c.state in ok (v, with_state s c)

  unfoldable pub new_block : Bytes → Option Function → Codegen llvm → Outcome (Block × Codegen llvm)
  new_block name f c = let (b, s) = llvm.create_block name f c.state in ok (b, with_state s c)

  unfoldable pub set_point : Block → Codegen llvm → Outcome (Codegen llvm)
  set_point b c = ok (with_state (llvm.set_insert_point b c.state) c)

  -- `func->insert(func->end(), b)` and `SetInsertPoint(b)`
  unfoldable pub continue_in : Function → Block → Codegen llvm → Outcome (Codegen llvm)
  continue_in f b c = ok (with_state (llvm.set_insert_point b (llvm.append_block f b c.state)) c)

  unfoldable pub new_string : Bytes → Bytes → Codegen llvm → Outcome (Value × Codegen llvm)
  new_string s name c = let (v, t) = llvm.global_string s name c.state in ok (v, with_state t c)

  unfoldable pub incoming : Value → Value → Block → Codegen llvm → Outcome (Codegen llvm)
  incoming phi v b c = ok (with_state (llvm.add_incoming phi v b c.state) c)

  -- `GetInsertBlock()`, which is read through.
  unfoldable pub current_block : Codegen llvm → Outcome Block
  current_block c = given (llvm.insert_block c.state)

  -- `GetInsertBlock()->getParent()`, which is read through where it is used.
  unfoldable pub current_function : Codegen llvm → Outcome Function
  current_function c = do b ← current_block c; given (llvm.parent b c.state)

  -- `symbol->llvm_Value`
  unfoldable pub value_of : Option Symbol → Codegen llvm → Outcome Value
  value_of o c = do s ← given o; given (c.values s.address)

  abbrev pub set_slot : ℕ → Value → (ℕ → Option Value) → ℕ → Option Value
  set_slot a v values b = if b == a then some v else values b

  -- `symbol->llvm_Value = v`
  unfoldable pub set_value : Option Symbol → Value → Codegen llvm → Outcome (Codegen llvm)
  set_value o v c = do s ← given o; ok (record c { values = set_slot s.address v c.values })

  -- What the code of a body leaves as it was: the open loops, and the name of the main function.
  abbrev pub frame : Codegen llvm → List Block × Bytes
  frame c = (c.while_context, c.main_func_id)
