-- ===== src/Codegen/Laws.antt =====
-- What the code generator relies on of LLVM's builder, as the documentation of `IRBuilder`,
-- `BasicBlock` and `Module` has it.
use jmm_llvm.Prelude.{Bool, false, length, [], ◌∷◌, true, ◌∙◌, ◌≢◌, List, Option, some, Bytes, ◌≡◌}
use jmm_llvm.Codegen.Llvm.{Llvm, Instruction}

-- From `s` to `t` no function is lost and no block leaves its function.
pub record Keeps (llvm : Llvm) (s t : llvm.State) : Type 0 where
  pub functions :
      (name : Bytes) (f : llvm.Function)
      → llvm.get_function name s ≡ some f
      → llvm.get_function name t ≡ some f
  pub parents :
      (b : llvm.Block) (f : llvm.Function) → llvm.parent b s ≡ some f → llvm.parent b t ≡ some f

pub Keeps-trans :
    {llvm : Llvm} {s t u : llvm.State} → Keeps llvm s t → Keeps llvm t u → Keeps llvm s u
Keeps-trans k l = record {
  functions = λ name f e. l.functions name f (k.functions name f e);
  parents = λ b f e. l.parents b f (k.parents b f e);
}

-- From `s` to `t` the builder appends to the same block, too.
pub record Stays (llvm : Llvm) (s t : llvm.State) : Type 0 where
  pub keeps : Keeps llvm s t
  pub block : llvm.insert_block t ≡ llvm.insert_block s

pub record BuilderLaws (llvm : Llvm) : Type 0 where
  pub build_stays :
      (i : Instruction llvm.Value llvm.Block llvm.Function llvm.Ty) (s : llvm.State)
      → Stays llvm s (llvm.build i s).1
  pub string_stays :
      (text name : Bytes) (s : llvm.State) → Stays llvm s (llvm.global_string text name s).1
  pub incoming_stays :
      (phi v : llvm.Value) (b : llvm.Block) (s : llvm.State)
      → Stays llvm s (llvm.add_incoming phi v b s)
  -- A new block stands in the function that it is made in.
  pub block_stays :
      (name : Bytes) (o : Option llvm.Function) (s : llvm.State)
      → Stays llvm s (llvm.create_block name o s).1
  pub block_parent :
      (name : Bytes) (o : Option llvm.Function) (s : llvm.State)
      → llvm.parent (llvm.create_block name o s).0 (llvm.create_block name o s).1 ≡ o
  pub append_functions :
      (f : llvm.Function) (b : llvm.Block) (s : llvm.State) (name : Bytes) (g : llvm.Function)
      → llvm.get_function name s ≡ some g
      → llvm.get_function name (llvm.append_block f b s) ≡ some g
  pub append_parent :
      (f : llvm.Function) (b : llvm.Block) (s : llvm.State)
      → llvm.parent b (llvm.append_block f b s) ≡ some f
  pub point_keeps : (b : llvm.Block) (s : llvm.State) → Keeps llvm s (llvm.set_insert_point b s)
  pub point_block :
      (b : llvm.Block) (s : llvm.State) → llvm.insert_block (llvm.set_insert_point b s) ≡ some b
  pub allocas_keeps :
      (f : llvm.Function) (s : llvm.State) → Keeps llvm s (llvm.set_past_allocas f s)
  -- An insertion point that was saved is the one that is restored.
  pub save_keeps : (s : llvm.State) → Keeps llvm s (llvm.save_and_clear s).1
  pub restore_keeps : (p : llvm.InsertPoint) (s : llvm.State) → Keeps llvm s (llvm.restore p s)
  pub restore_block :
      (s t : llvm.State)
      → llvm.insert_block (llvm.restore (llvm.save_and_clear s).0 t) ≡ llvm.insert_block s

-- `a` is one of the list.
pub data Within {ℓ} {A : Type ℓ} (a : A) : List A → Type ℓ where
  here : {xs : List A} → Within a (a ∷ xs)
  there : {b : A} {xs : List A} → Within a xs → Within a (b ∷ xs)

-- No two of the list are the same.
pub data Distinct {ℓ} {A : Type ℓ} : List A → Type ℓ where
  nil : Distinct []
  cons : {a : A} {xs : List A} → ((b : A) → Within b xs → a ≢ b) → Distinct xs → Distinct (a ∷ xs)

-- From `s` to `t` at most the instructions of the block `b` change.
pub record Touches (llvm : Llvm) (b : llvm.Block) (s t : llvm.State) : Type 0 where
  pub keeps : Keeps llvm s t
  pub blocks : (f : llvm.Function) → llvm.blocks f t ≡ llvm.blocks f s
  pub others : (o : llvm.Block) → b ≢ o → llvm.terminated o t ≡ llvm.terminated o s

pub Touches-trans :
    {llvm : Llvm} {b : llvm.Block} {s t u : llvm.State}
    → Touches llvm b s t
    → Touches llvm b t u
    → Touches llvm b s u
Touches-trans k l = record {
  keeps = Keeps-trans k.keeps l.keeps;
  blocks = λ f. l.blocks f ∙ k.blocks f;
  others = λ o n. l.others o n ∙ k.others o n;
}

-- The builder appends to the end of the block `b`: it was set there, and has built instructions since.
pub data AtEnd (llvm : Llvm) (b : llvm.Block) : llvm.State → Type 0 where
  point : (s : llvm.State) → AtEnd llvm b (llvm.set_insert_point b s)
  built :
      {s : llvm.State} (i : Instruction llvm.Value llvm.Block llvm.Function llvm.Ty)
      → AtEnd llvm b s
      → AtEnd llvm b (llvm.build i s).1

-- What the end of a function relies on: an instruction is built in the block of the builder, an
-- erased one leaves its own block, and a terminator that is built at the end of a block ends it.
pub record BlockLaws (llvm : Llvm) : Type 0 where
  pub build_touches :
      (i : Instruction llvm.Value llvm.Block llvm.Function llvm.Ty) (b : llvm.Block)
      (s : llvm.State)
      → llvm.insert_block s ≡ some b
      → Touches llvm b s (llvm.build i s).1
  pub build_here :
      (i : Instruction llvm.Value llvm.Block llvm.Function llvm.Ty) (s : llvm.State)
      → llvm.insert_block (llvm.build i s).1 ≡ llvm.insert_block s
  pub point_touches :
      (b o : llvm.Block) (s : llvm.State) → Touches llvm o s (llvm.set_insert_point b s)
  pub point_here :
      (b : llvm.Block) (s : llvm.State) → llvm.insert_block (llvm.set_insert_point b s) ≡ some b
  pub trap_touches : (o : llvm.Block) (s : llvm.State) → Touches llvm o s (llvm.trap_intrinsic s).1
  pub erase_touches :
      (v : llvm.Value) (b : llvm.Block) (s : llvm.State)
      → Within v (llvm.instructions b s)
      → Touches llvm b s (llvm.erase v s)
  pub ret_void_ends :
      (b : llvm.Block) (s : llvm.State)
      → AtEnd llvm b s
      → llvm.terminated b (llvm.build Instruction.ret_void s).1 ≡ true
  pub unreachable_ends :
      (b : llvm.Block) (s : llvm.State)
      → AtEnd llvm b s
      → llvm.terminated b (llvm.build Instruction.unreachable s).1 ≡ true
  pub blocks_distinct : (f : llvm.Function) (s : llvm.State) → Distinct (llvm.blocks f s)

-- The name is not empty, and no function and no variable of the module has it, be it private.
pub record Free (llvm : Llvm) (name : Bytes) (s : llvm.State) : Type 0 where
  pub spelled : name ≢ []
  pub unused : llvm.is_named name s ≡ false

-- From `s` to `t` the functions are kept, and each name but `name` that is free stays free.
pub record Declares (llvm : Llvm) (name : Bytes) (s t : llvm.State) : Type 0 where
  pub functions :
      (n : Bytes) (f : llvm.Function)
      → llvm.get_function n s ≡ some f
      → llvm.get_function n t ≡ some f
  pub free : (n : Bytes) → name ≢ n → Free llvm n s → Free llvm n t

-- From `s` to `t` the functions are kept, and each name that is free stays free.
pub record Quiet (llvm : Llvm) (s t : llvm.State) : Type 0 where
  pub functions :
      (n : Bytes) (f : llvm.Function)
      → llvm.get_function n s ≡ some f
      → llvm.get_function n t ≡ some f
  pub free : (n : Bytes) → Free llvm n s → Free llvm n t

-- What the declarations rely on of a module and its names.
pub record ModuleLaws (llvm : Llvm) : Type 0 where
  pub create_found :
      (t : llvm.FunctionType) (name : Bytes) (s : llvm.State)
      → Free llvm name s
      → llvm.get_function name (llvm.create_function t name s).1
        ≡ some (llvm.create_function t name s).0
  pub create_declares :
      (t : llvm.FunctionType) (name : Bytes) (s : llvm.State)
      → Free llvm name s
      → Declares llvm name s (llvm.create_function t name s).1
  pub create_args :
      (result : llvm.Ty) (params : List llvm.Ty) (name : Bytes) (s : llvm.State)
      → length (llvm.args (llvm.create_function (llvm.function_type result params false) name s).0)
        ≡ length params
  pub global_declares :
      (t : llvm.Ty) (constant : Bool) (initial : Option llvm.Value) (name : Bytes) (s : llvm.State)
      → Free llvm name s
      → Declares llvm name s (llvm.new_global t constant initial name s).1
  pub string_declares :
      (text name : Bytes) (s : llvm.State)
      → Free llvm name s
      → Declares llvm name s (llvm.global_string text name s).1
  -- The names of a function's arguments and of its blocks are its own.
  pub argument_quiet :
      (f : llvm.Function) (v : llvm.Value) (x : Bytes) (s : llvm.State)
      → Within v (llvm.args f)
      → Quiet llvm s (llvm.set_value_name v x s)
  pub block_quiet :
      (x : Bytes) (o : Option llvm.Function) (s : llvm.State)
      → Quiet llvm s (llvm.create_block x o s).1
  pub build_quiet :
      (i : Instruction llvm.Value llvm.Block llvm.Function llvm.Ty) (s : llvm.State)
      → Quiet llvm s (llvm.build i s).1
  pub point_quiet : (b : llvm.Block) (s : llvm.State) → Quiet llvm s (llvm.set_insert_point b s)
  pub conv_quiet : (f : llvm.Function) (s : llvm.State) → Quiet llvm s (llvm.set_calling_conv f s)
  pub no_return_quiet : (f : llvm.Function) (s : llvm.State) → Quiet llvm s (llvm.add_no_return f s)
