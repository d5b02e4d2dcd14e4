-- ===== src/Codegen/Llvm.antt =====
-- LLVM as src/codegen uses it: a parameter of the code generator, with no definition of its own here.
-- `State` is what the context, the module and the builder hold together. A `Value`, `Block` or
-- `Function` is an object that exists; a pointer that may be null is an `Option`.
use jmm_llvm.Prelude.{ℕ, Bool, Option, List, Bytes}

-- The predicates of `CreateICmp…`.
pub data Predicate : Type 0 where
  eq ne sgt slt sge sle : Predicate

-- One constructor for each `IRBuilder::Create…` that appends an instruction, with its operands. The
-- last argument is the name of the result.
pub data Instruction (Value Block Function Ty : Type 0) : Type 0 where
  br : Block → Instruction Value Block Function Ty
  cond_br : Value → Block → Block → Instruction Value Block Function Ty
  ret : Value → Instruction Value Block Function Ty
  ret_void unreachable : Instruction Value Block Function Ty
  alloca : Ty → Bytes → Instruction Value Block Function Ty
  load : Ty → Value → Instruction Value Block Function Ty
  store : Value → Value → Instruction Value Block Function Ty
  nsw_add nsw_sub nsw_mul : Value → Value → Bytes → Instruction Value Block Function Ty
  sdiv srem : Value → Value → Bytes → Instruction Value Block Function Ty
  icmp : Predicate → Value → Value → Bytes → Instruction Value Block Function Ty
  and or xor : Value → Value → Bytes → Instruction Value Block Function Ty
  shl ashr : Value → Value → Bytes → Instruction Value Block Function Ty
  not neg : Value → Instruction Value Block Function Ty
  phi : Ty → ℕ → Bytes → Instruction Value Block Function Ty
  call : Function → List Value → Bytes → Instruction Value Block Function Ty

pub record Llvm : Type 1 where
  pub State : Type 0
  pub Value : Type 0
  pub Block : Type 0
  pub Function : Type 0
  pub Ty : Type 0
  pub FunctionType : Type 0
  pub InsertPoint : Type 0
  -- types and constants, which are unique in a context
  pub int32 : Ty
  pub int1 : Ty
  pub int8_ptr : Ty
  pub int32_ptr : Ty
  pub void_ty : Ty
  pub ty_eq : Ty → Ty → Bool
  -- the type of the result, the types of the parameters, whether more arguments may follow
  pub function_type : Ty → List Ty → Bool → FunctionType
  pub const_int : ℕ → Value
  pub const_bool : Bool → Value
  pub null_value : Ty → Value
  -- the module; a name that is taken is made different by a number behind it
  pub create_function : FunctionType → Bytes → State → Function × State
  pub get_function : Bytes → State → Option Function
  pub set_function_name : Function → Bytes → State → State
  pub set_calling_conv : Function → State → State
  pub add_no_return : Function → State → State
  pub returns_void : Function → Bool
  pub args : Function → List Value
  pub value_type : Value → Ty
  pub value_name : Value → State → Bytes
  pub set_value_name : Value → Bytes → State → State
  -- the type, whether it is constant, the initial value, the name
  pub new_global : Ty → Bool → Option Value → Bytes → State → Value × State
  -- `getGlobalVariable(name)`, which passes over the variables with private linkage, such as the strings
  pub get_global_variable : Bytes → State → Option Value
  -- whether a function or a variable, a private one too, has the name: the module's symbol table, as
  -- `getNamedValue` reads it. The source does not call it; laws on names do.
  pub is_named : Bytes → State → Bool
  pub trap_intrinsic : State → Function × State
  -- blocks
  pub create_block : Bytes → Option Function → State → Block × State
  pub append_block : Function → Block → State → State
  pub parent : Block → State → Option Function
  pub blocks : Function → State → List Block
  pub terminated : Block → State → Bool
  pub instructions : Block → State → List Value
  pub is_return : Value → State → Bool
  pub erase : Value → State → State
  -- the builder
  pub insert_block : State → Option Block
  pub set_insert_point : Block → State → State
  pub set_past_allocas : Function → State → State
  pub save_and_clear : State → InsertPoint × State
  pub restore : InsertPoint → State → State
  pub build : Instruction Value Block Function Ty → State → Value × State
  pub global_string : Bytes → Bytes → State → Value × State
  pub add_incoming : Value → Value → Block → State → State
