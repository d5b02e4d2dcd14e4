-- ===== src/Codegen/Runtime/Built.antt =====
-- What `buildRTS` leaves: the runtime's functions are in the module under their names.
use jmm_llvm.Codegen.State.{emit}
use jmm_llvm.Codegen.Expressions.{call_through}
use jmm_llvm.Prelude.{arith, ◌++◌, Bool, false, some, List, [], ◌∷◌, Bytes, codes, length, ◌≡◌, ◌≢◌}
use jmm_llvm.Common.Outcome.{◌▷◌, Returns, gives}
use jmm_llvm.Codegen.Llvm.{Instruction, Llvm}
use jmm_llvm.Codegen.State.{Codegen, with_state, new_block, set_point, new_string}
use jmm_llvm.Codegen.Laws.{Within, Distinct, Free, Declares, Quiet, ModuleLaws}
use jmm_llvm.Codegen.Runtime.{
  true, ok, call_through, fault, build_rts, printb_function, print_function, halt_function,
  prints_function, call_and_return, Option, emit, first_arg, libc_function, name_all, rts_function,
}

-- The functions of `found` are in the module, the names of `rest` differ and are free, and no loop
-- is open.
pub record Fresh (llvm : Llvm) (found rest : List Bytes) (c : Codegen llvm) : Type 0 where
  pub functions :
      (x : Bytes) → Within x found → (g : llvm.Function) × (llvm.get_function x c.state ≡ some g)
  pub free : (x : Bytes) → Within x rest → Free llvm x c.state
  pub distinct : Distinct rest
  pub empty : c.while_context ≡ []

tail_apart :
    {x : Bytes} {rest : List Bytes}
    → Distinct (x ∷ rest)
    → ((y : Bytes) → Within y rest → x ≢ y) × Distinct rest
tail_apart (Distinct.cons a d) = (a, d)

Quiet-trans : {llvm : Llvm} {s t u : llvm.State} → Quiet llvm s t → Quiet llvm t u → Quiet llvm s u
Quiet-trans k l = record {
  functions = λ n f e. l.functions n f (k.functions n f e);
  free = λ n h. l.free n (k.free n h);
}

module _ (llvm : Llvm) (laws : ModuleLaws llvm) where
  quiet :
      {found rest : List Bytes} {c : Codegen llvm} {s : llvm.State}
      → Fresh llvm found rest c
      → Quiet llvm c.state s
      → Fresh llvm found rest (with_state llvm s c)
  quiet h q = record {
    functions = λ x w. let (g, e) = h.functions x w in (g, q.functions x g e);
    free = λ x w. q.free x (h.free x w);
    distinct = h.distinct;
    empty = h.empty;
  }

  -- The first of the free names is taken.
  take :
      {found rest : List Bytes} {x : Bytes} {c : Codegen llvm} {s : llvm.State}
      → Fresh llvm found (x ∷ rest) c
      → Declares llvm x c.state s
      → Fresh llvm found rest (with_state llvm s c)
  take h d =
      let (apart, rest) = tail_apart h.distinct in
      record {
        functions = λ x w. let (g, e) = h.functions x w in (g, d.functions x g e);
        free = λ x w. d.free x (apart x w) (h.free x (Within.there w));
        distinct = rest;
        empty = h.empty;
      }

  -- The first of the free names is that of a new function.
  create :
      {found rest : List Bytes} {x : Bytes} {c : Codegen llvm} (t : llvm.FunctionType)
      → Fresh llvm found (x ∷ rest) c
      → Fresh llvm (x ∷ found) rest (with_state llvm (llvm.create_function t x c.state).1 c)
  create {found} {x} {c} t h =
      let free = h.free x Within.here in
      let taken = take h (laws.create_declares t x c.state free) in
      record {
        functions = functions;
        free = taken.free;
        distinct = taken.distinct;
        empty = taken.empty;
      }
    where
      functions :
          (y : Bytes)
          → Within y (x ∷ found)
          → (g : llvm.Function) × (llvm.get_function y (llvm.create_function t x c.state).1
              ≡ some g)
      functions _ Within.here = (
        (llvm.create_function t x c.state).0,
        laws.create_found t x c.state (h.free x Within.here),
      )
      functions y (Within.there w) =
          let (g, e) = h.functions y w in
          (g, (laws.create_declares t x c.state (h.free x Within.here)).functions y g e)

  string-Fresh :
      {found rest : List Bytes} {name : Bytes} {c : Codegen llvm} (text : Bytes)
      → Fresh llvm found (name ∷ rest) c
      → Returns (λ (_, c'). Fresh llvm found rest c') (new_string llvm text name c)
  unfolding new_string
  string-Fresh {name} {c} text h =
      gives (take h (laws.string_declares text name c.state (h.free name Within.here)))

  libc_function-Fresh :
      {found rest : List Bytes} {name : Bytes} {c : Codegen llvm} (result : llvm.Ty)
      (params : List llvm.Ty) (more : Bool)
      → Fresh llvm found (name ∷ rest) c
      → Returns
          (λ (_, c'). Fresh llvm (name ∷ found) rest c')
          (libc_function llvm result params more name c)
  unfolding libc_function
  libc_function-Fresh result params more h =
      let t = llvm.function_type result params more in
      gives (quiet (create t h) (laws.conv_quiet _ _))

  name_all-Quiet :
      (f : llvm.Function) (vs : List llvm.Value) (x : Bytes) (s t : llvm.State)
      → ((v : llvm.Value) → Within v vs → Within v (llvm.args f))
      → Quiet llvm s t
      → Quiet llvm s (name_all llvm vs x t)
  name_all-Quiet f [] x s t h q = q
  name_all-Quiet f (v ∷ vs) x s t h q =
      name_all-Quiet f vs x s (llvm.set_value_name v x t) (λ w k. h w (Within.there k))
        (Quiet-trans q (laws.argument_quiet f v x t (h v Within.here)))

  rts_function-Fresh :
      {found rest : List Bytes} {name : Bytes} {c : Codegen llvm} (params : List llvm.Ty)
      (arg : Bytes)
      → Fresh llvm found (name ∷ rest) c
      → Returns
          (λ (f, c'). Fresh llvm (name ∷ found) rest c' × (length (llvm.args f) ≡ length params))
          (rts_function llvm params name arg c)
  unfolding rts_function new_block set_point
  rts_function-Fresh {name} {c} params arg h =
      let t = llvm.function_type llvm.void_ty params false in
      let f = (llvm.create_function t name c.state).0 in
      let s = (llvm.create_function t name c.state).1 in
      let named =
        name_all-Quiet f (llvm.args f) arg s s (λ _ w. w)
          (record { functions = λ _ _ e. e; free = λ _ h. h }) in
      gives (
        quiet (create t h) (
            Quiet-trans named
              (Quiet-trans (laws.block_quiet (codes "entry") (some f) _) (laws.point_quiet _ _))),
        laws.create_args llvm.void_ty params name c.state,
      )

  first_arg-Returns :
      (f : llvm.Function) → length (llvm.args f) ≡ 1 → Returns (λ _. Unit {0}) (first_arg llvm f)
  unfolding first_arg
  first_arg-Returns f e = one (llvm.args f) e
    where
      one :
          (vs : List llvm.Value)
          → length vs ≡ 1
          → Returns {A = llvm.Value} (λ _. Unit {0}) (elim vs [ [] ↦ fault | v ∷ _ ↦ ok v ])
      one [] e = ground arith
      one (v ∷ vs) e = gives tt

  module _ {found rest : List Bytes} {c : Codegen llvm} (h : Fresh llvm found rest c) where
    emit-Fresh :
        (i : Instruction llvm.Value llvm.Block llvm.Function llvm.Ty)
        → Returns (λ (_, c'). Fresh llvm found rest c') (emit llvm i c)
    unfolding emit
    emit-Fresh i = gives (quiet h (laws.build_quiet i c.state))

    new_block-Fresh :
        (x : Bytes) (o : Option llvm.Function)
        → Returns (λ (_, c'). Fresh llvm found rest c') (new_block llvm x o c)
    unfolding new_block
    new_block-Fresh x o = gives (quiet h (laws.block_quiet x o c.state))

    set_point-Fresh : (b : llvm.Block) → Returns (Fresh llvm found rest) (set_point llvm b c)
    unfolding set_point
    set_point-Fresh b = gives (quiet h (laws.point_quiet b c.state))

  call_and_return-Fresh :
      {found rest : List Bytes} {c : Codegen llvm}
      → Fresh llvm found rest c
      → (f : llvm.Function) (args : List llvm.Value)
      → Returns (Fresh llvm found rest) (call_and_return llvm (some f) args c)
  unfolding call_and_return call_through
  call_and_return-Fresh h f args =
      emit-Fresh h _ ▷ λ (_, c₁) h₁. emit-Fresh h₁ _ ▷ λ (_, c₂) h₂. gives h₂

  prints-Fresh :
      {found rest : List Bytes} {c : Codegen llvm}
      → Fresh llvm found (codes "fmtstr" ∷ codes "printf" ∷ codes "prints" ∷ rest) c
      → Returns (Fresh llvm (codes "prints" ∷ codes "printf" ∷ found) rest) (prints_function llvm c)
  unfolding prints_function
  prints-Fresh h = string-Fresh _ h ▷ λ (fmt, c₁) h₁.
      libc_function-Fresh _ _ true h₁ ▷ λ (printf, c₂) h₂.
      rts_function-Fresh _ (codes "str") h₂ ▷ λ (f, c₃) (h₃, e).
      first_arg-Returns f e ▷ λ a _. call_and_return-Fresh h₃ printf _

  halt-Fresh :
      {found rest : List Bytes} {c : Codegen llvm}
      → Fresh llvm found (codes "exit" ∷ codes "halt" ∷ rest) c
      → Returns (Fresh llvm (codes "halt" ∷ codes "exit" ∷ found) rest) (halt_function llvm c)
  unfolding halt_function
  halt-Fresh h = libc_function-Fresh _ _ false h ▷ λ (exit, c₁) h₁.
      rts_function-Fresh [] [] (quiet h₁ (laws.no_return_quiet exit c₁.state)) ▷ λ (f, c₃) (h₃, _).
      emit-Fresh h₃ _ ▷ λ (_, c₄) h₄.
      emit-Fresh h₄ _ ▷ λ (_, c₅) h₅. gives (quiet h₅ (laws.no_return_quiet f c₅.state))

  print-Fresh :
      {found rest : List Bytes} {c : Codegen llvm} (format format_name name arg : Bytes)
      → Fresh llvm found (format_name ∷ name ∷ rest) c
      → Within (codes "printf") found
      → Returns (Fresh llvm (name ∷ found) rest) (print_function llvm format format_name name arg c)
  unfolding print_function
  print-Fresh format format_name name arg h w = string-Fresh format h ▷ λ (fmt, c₁) h₁.
      let (printf, k) = h₁.functions (codes "printf") w in
      rts_function-Fresh _ arg h₁ ▷ λ (f, c₂) (h₂, e).
      first_arg-Returns f e ▷ λ a _. rw k (call_and_return-Fresh h₂ printf _)

  printb-Fresh :
      {found rest : List Bytes} {c : Codegen llvm}
      → Fresh llvm found (codes "booltrue" ∷ codes "boolfalse" ∷ codes "printb" ∷ rest) c
      → Within (codes "prints") found
      → Returns (Fresh llvm (codes "printb" ∷ found) rest) (printb_function llvm c)
  unfolding printb_function
  printb-Fresh h w = string-Fresh _ h ▷ λ (true_str, c₁) h₁.
      string-Fresh _ h₁ ▷ λ (false_str, c₂) h₂.
      let (prints, k) = h₂.functions (codes "prints") w in
      rts_function-Fresh _ (codes "bool") h₂ ▷ λ (f, c₃) (h₃, e).
      new_block-Fresh h₃ _ _ ▷ λ (true_print, c₄) h₄.
      new_block-Fresh h₄ _ _ ▷ λ (false_print, c₅) h₅. first_arg-Returns f e ▷ λ a _.
      emit-Fresh h₅ _ ▷ λ (cond, c₆) h₆. emit-Fresh h₆ _ ▷ λ (_, c₇) h₇.
      set_point-Fresh h₇ true_print ▷ λ c₈ h₈. rw k (
        call_and_return-Fresh h₈ prints _ ▷ λ c₉ h₉.
        set_point-Fresh h₉ false_print ▷ λ c₁₀ h₁₀. call_and_return-Fresh h₁₀ prints _)

-- The names that `buildRTS` takes, in their order.
abbrev pub taken : List Bytes
taken =
    codes "fmtstr"
    ∷ codes "printf"
    ∷ codes "prints"
    ∷ codes "exit"
    ∷ codes "halt"
    ∷ codes "fmtint"
    ∷ codes "printi"
    ∷ codes "booltrue"
    ∷ codes "boolfalse"
    ∷ codes "printb"
    ∷ codes "getchar"
    ∷ codes "fmtchar"
    ∷ codes "printc"
    ∷ []

-- The functions that it makes, the last one first.
abbrev pub runtime : List Bytes
runtime =
    codes "printc"
    ∷ codes "getchar"
    ∷ codes "printb"
    ∷ codes "printi"
    ∷ codes "halt"
    ∷ codes "exit"
    ∷ codes "prints"
    ∷ codes "printf"
    ∷ []

-- On a module in which the runtime's names and those of `rest` differ and are free (not empty, and no
-- function or variable has them, be it private), `buildRTS` returns:
-- the runtime's functions are in the module under their names, and those of `rest` are still free.
pub build_rts-Fresh :
    (llvm : Llvm) (laws : ModuleLaws llvm) (rest : List Bytes) (c : Codegen llvm)
    → Fresh llvm [] (taken ++ rest) c
    → Returns (Fresh llvm runtime rest) (build_rts llvm c)
unfolding build_rts
build_rts-Fresh llvm laws rest c h = prints-Fresh llvm laws h ▷ λ c₁ h₁.
    halt-Fresh llvm laws h₁ ▷ λ c₂ h₂.
    print-Fresh llvm laws _ _ _ (codes "int") h₂
      (Within.there (Within.there (Within.there Within.here)))
    ▷ λ c₃ h₃.
        printb-Fresh llvm laws h₃ (Within.there (Within.there (Within.there Within.here)))
        ▷ λ c₄ h₄. libc_function-Fresh llvm laws llvm.int32 [] false h₄ ▷ λ (_, c₅) h₅.
            print-Fresh llvm laws _ _ _ (codes "char") h₅ (
              Within.there (
                Within.there
                  (Within.there (Within.there (Within.there (Within.there Within.here))))))
