-- ===== src/Codegen/Tests/Machine.antt =====
-- A small LLVM that is kept in memory: the functions by name, the parent of each block, the blocks
-- that end in a terminator, and where the builder stands. Values are numbers.
use jmm_llvm.Prelude.{
  ℕ, suc, ◌+◌, ◌==◌, Bool, true, false, Option, some, none, List, [], ◌∷◌, ◌++◌, Bytes, bytes_eq,
  length, if◌then◌else◌,
}
use jmm_llvm.Codegen.Llvm.{Llvm, Instruction}

pub record Func : Type 0 where
  pub id : ℕ
  pub arguments : List ℕ
  pub is_void : Bool

pub record Machine : Type 0 where
  pub functions : List (Bytes × Func)
  pub globals : List (Bytes × ℕ)
  pub strings : List (Bytes × ℕ)
  pub owners : List (ℕ × Option Func)
  pub ended : List ℕ
  pub at : Option ℕ
  pub fresh : ℕ

abbrev pub lookup {ℓ} : {A : Type ℓ} → Bytes → List (Bytes × A) → Option A
lookup name [] = none
lookup name ((n, a) ∷ m) = if bytes_eq n name then some a else lookup name m

abbrev pub has {ℓ} : {A : Type ℓ} → Bytes → List (Bytes × A) → Bool
has name [] = false
has name ((n, a) ∷ m) = if bytes_eq n name then true else has name m

-- The strings are private: they have names that `get_global_variable` does not find.
abbrev pub named : Bytes → Machine → Bool
named name m =
    if has name m.functions then true else if has name m.globals then true else has name m.strings

abbrev pub owner : ℕ → List (ℕ × Option Func) → Option Func
owner b [] = none
owner b ((n, o) ∷ m) = if n == b then o else owner b m

abbrev pub total : List (ℕ × Option Func) → ℕ
total [] = 0
total ((n, o) ∷ m) = n + total m

abbrev pub contains : ℕ → List ℕ → Bool
contains b [] = false
contains b (n ∷ ns) = if n == b then true else contains b ns

-- The blocks of a function: the first one that was made.
abbrev pub entry : Func → List (ℕ × Option Func) → Option ℕ
entry f [] = none
entry f ((n, none) ∷ m) = entry f m
entry f ((n, some g) ∷ m) = elim (entry f m) [
  | some b ↦ some b
  | none ↦ if g.id == f.id then some n else none
]

abbrev pub listed {ℓ} : {A : Type ℓ} → Option A → List A
listed none = []
listed (some a) = a ∷ []

abbrev pub numbered : ℕ → List ℕ → List ℕ
numbered n [] = []
numbered n (_ ∷ ts) = n ∷ numbered (suc n) ts

-- Types: 0 is `void`. A function type is its result and its parameters.
abbrev pub Instr : Type 0
Instr = Instruction ℕ ℕ Func ℕ

abbrev pub ends : Instr → Bool
ends (Instruction.br _) = true
ends (Instruction.cond_br _ _ _) = true
ends (Instruction.ret _) = true
ends Instruction.ret_void = true
ends Instruction.unreachable = true
ends _ = false

abbrev pub mark : Bool → Option ℕ → List ℕ → List ℕ
mark true (some b) bs = b ∷ bs
mark _ _ bs = bs

abbrev pub appended : Instr → Machine → Machine
appended i m = record m { ended = mark (ends i) m.at m.ended; fresh = suc m.fresh }

abbrev pub new_func : ℕ × List ℕ → ℕ → Func
new_func (result, params) n = record {
  id = n;
  arguments = numbered (suc n) params;
  is_void = result == 0;
}

abbrev pub machine : Llvm
machine = record {
  State = Machine;
  Value = ℕ;
  Block = ℕ;
  Function = Func;
  Ty = ℕ;
  FunctionType = ℕ × List ℕ;
  InsertPoint = Option ℕ;
  int32 = 1;
  int1 = 2;
  int8_ptr = 3;
  int32_ptr = 4;
  void_ty = 0;
  ty_eq = λ a b. a == b;
  function_type = λ result params _. (result, params);
  const_int = λ n. n;
  const_bool = λ b. if b then 1 else 0;
  null_value = λ _. 0;
  create_function = λ t name m.
      let f = new_func t m.fresh in
      (
        f,
        record m {
          functions = m.functions ++ ((name, f) ∷ []);
          fresh = suc m.fresh + length f.arguments;
        },
      );
  get_function = λ name m. lookup name m.functions;
  set_function_name = λ _ _ m. m;
  set_calling_conv = λ _ m. m;
  add_no_return = λ _ m. m;
  returns_void = λ f. f.is_void;
  args = λ f. f.arguments;
  value_type = λ _. 1;
  value_name = λ _ _. [];
  set_value_name = λ _ _ m. m;
  new_global = λ _ _ _ name m.
      (m.fresh, record m { globals = m.globals ++ ((name, m.fresh) ∷ []); fresh = suc m.fresh });
  get_global_variable = λ name m. lookup name m.globals;
  is_named = named;
  trap_intrinsic = λ m. (record { id = 0; arguments = []; is_void = true }, m);
  create_block =
      λ _ o m. let b = suc (total m.owners) in (b, record m { owners = (b, o) ∷ m.owners });
  append_block = λ f b m. record m { owners = (b, some f) ∷ m.owners };
  parent = λ b m. owner b m.owners;
  blocks = λ f m. listed (entry f m.owners);
  terminated = λ b m. contains b m.ended;
  instructions = λ _ _. [];
  is_return = λ _ _. false;
  erase = λ _ m. m;
  insert_block = λ m. m.at;
  set_insert_point = λ b m. record m { at = some b };
  set_past_allocas = λ f m. record m { at = entry f m.owners };
  save_and_clear = λ m. (m.at, record m { at = none });
  restore = λ p m. record m { at = p };
  build = λ i m. (m.fresh, appended i m);
  global_string = λ _ name m.
      (m.fresh, record m { strings = m.strings ++ ((name, m.fresh) ∷ []); fresh = suc m.fresh });
  add_incoming = λ _ _ _ m. m;
}

abbrev pub empty_machine : Machine
empty_machine = record {
  functions = [];
  globals = [];
  strings = [];
  owners = [];
  ended = [];
  at = none;
  fresh = 10;
}
