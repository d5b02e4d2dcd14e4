-- ===== src/Codegen/Runtime.antt =====
-- codegen/codegen_ir.cpp: `buildRTS`, the runtime's functions over those of libc, which the constructor
-- of the visitor makes first.
pub mod Built
use jmm_llvm.Prelude.{true, false, Bool, Option, some, none, ◌∷◌, [], List, Bytes, codes}
use jmm_llvm.Common.Outcome.{Outcome, ok, fault, ◌>>=◌, Logger}
use jmm_llvm.Codegen.Llvm.{Llvm, Instruction, Predicate}
use jmm_llvm.Codegen.State.{Codegen, emit, new_block, set_point, new_string, with_state}
use jmm_llvm.Codegen.Expressions.{call_through}

module _ (llvm : Llvm) where
  open llvm use {State, Value, Function, Ty}

  -- A function of libc: its result, its parameters, whether more may follow.
  unfoldable pub libc_function :
      Ty → List Ty → Bool → Bytes → Codegen llvm → Outcome (Function × Codegen llvm)
  libc_function result params more name c =
      let (f, s) = llvm.create_function (llvm.function_type result params more) name c.state in
      ok (f, with_state llvm (llvm.set_calling_conv f s) c)

  abbrev pub name_all : List Value → Bytes → State → State
  name_all [] name s = s
  name_all (v ∷ vs) name s = name_all vs name (llvm.set_value_name v name s)

  -- A `void` function of the runtime with its arguments named, and its first block.
  unfoldable pub rts_function :
      List Ty → Bytes → Bytes → Codegen llvm → Outcome (Function × Codegen llvm)
  rts_function params name arg c = do
    let (f, s) = llvm.create_function (llvm.function_type llvm.void_ty params false) name c.state
    (body, c₁) ←
        new_block llvm (codes "entry") (some f) (with_state llvm (name_all (llvm.args f) arg s) c)
    c₂ ← set_point llvm body c₁
    ok (f, c₂)

  -- `getArg(0)`
  unfoldable pub first_arg : Function → Outcome Value
  first_arg f = elim (llvm.args f) [ [] ↦ fault | v ∷ _ ↦ ok v ]

  unfoldable pub call_and_return :
      Option Function → List Value → Codegen llvm → Outcome (Codegen llvm)
  call_and_return f args c = do
    (_, c₁) ← call_through llvm f args [] c
    (_, c₂) ← emit llvm Instruction.ret_void c₁
    ok c₂

  -- `printi` and `printc`: a format, and a call of `printf` with the argument behind it.
  unfoldable pub print_function :
      Bytes → Bytes → Bytes → Bytes → Codegen llvm → Outcome (Codegen llvm)
  print_function format format_name name arg c = do
    (fmt, c₁) ← new_string llvm format format_name c
    let printf = llvm.get_function (codes "printf") c₁.state
    (f, c₂) ← rts_function (llvm.int32 ∷ []) name arg c₁
    a ← first_arg f
    call_and_return printf (fmt ∷ a ∷ []) c₂

  unfoldable pub prints_function : Codegen llvm → Outcome (Codegen llvm)
  prints_function c = do
    (fmt, c₁) ← new_string llvm (codes "%s") (codes "fmtstr") c
    (printf, c₂) ← libc_function llvm.int32 (llvm.int8_ptr ∷ []) true (codes "printf") c₁
    (f, c₃) ← rts_function (llvm.int32_ptr ∷ []) (codes "prints") (codes "str") c₂
    a ← first_arg f
    call_and_return (some printf) (fmt ∷ a ∷ []) c₃

  -- `exit` is declared without a parameter and called with one.
  unfoldable pub halt_function : Codegen llvm → Outcome (Codegen llvm)
  halt_function c = do
    (exit, c₁) ← libc_function llvm.void_ty [] false (codes "exit") c
    let c₂ = with_state llvm (llvm.add_no_return exit c₁.state) c₁
    (f, c₃) ← rts_function [] (codes "halt") [] c₂
    (_, c₄) ← emit llvm (Instruction.call exit (llvm.const_int 0 ∷ []) []) c₃
    (_, c₅) ← emit llvm Instruction.unreachable c₄
    ok (with_state llvm (llvm.add_no_return f c₅.state) c₅)

  unfoldable pub printb_function : Codegen llvm → Outcome (Codegen llvm)
  printb_function c = do
    (true_str, c₁) ← new_string llvm (codes "true") (codes "booltrue") c
    (false_str, c₂) ← new_string llvm (codes "false") (codes "boolfalse") c₁
    let prints = llvm.get_function (codes "prints") c₂.state
    (f, c₃) ← rts_function (llvm.int1 ∷ []) (codes "printb") (codes "bool") c₂
    (true_print, c₄) ← new_block llvm (codes "true_print") (some f) c₃
    (false_print, c₅) ← new_block llvm (codes "false_print") (some f) c₄
    a ← first_arg f
    (cond, c₆) ← emit llvm (Instruction.icmp Predicate.eq a (llvm.const_bool true) []) c₅
    (_, c₇) ← emit llvm (Instruction.cond_br cond true_print false_print) c₆
    c₈ ← set_point llvm true_print c₇
    c₉ ← call_and_return prints (true_str ∷ []) c₈
    c₁₀ ← set_point llvm false_print c₉
    call_and_return prints (false_str ∷ []) c₁₀

  unfoldable pub build_rts : Codegen llvm → Outcome (Codegen llvm)
  build_rts c = do
    c₁ ← prints_function c
    c₂ ← halt_function c₁
    c₃ ← print_function (codes "%d") (codes "fmtint") (codes "printi") (codes "int") c₂
    c₄ ← printb_function c₃
    (_, c₅) ← libc_function llvm.int32 [] false (codes "getchar") c₄
    print_function (codes "%c") (codes "fmtchar") (codes "printc") (codes "char") c₅

  -- The constructor, from a module that is empty.
  unfoldable pub new_codegen : State → Logger → Outcome (Codegen llvm)
  new_codegen s l =
      build_rts (record {
        state = s;
        values = λ _. none;
        while_context = [];
        main_func_id = [];
        logger = l;
      })
