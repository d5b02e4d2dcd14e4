-- ===== src/Codegen/Expressions.antt =====
-- codegen/codegen_ir.cpp: the `codegen` of expressions. The type that the type visitor stores in an
-- identifier or in a call (`a_type`) is the type of its symbol (Semantic.Types).
pub mod Evaluated
use jmm_llvm.Prelude.{Option, some, none, List, [], ◌∷◌, Bytes, codes}
use jmm_llvm.Common.Types.{VType, Op}
use jmm_llvm.Common.Symbol.{Symbol}
use jmm_llvm.Common.Outcome.{Outcome, ok, fault, ◌>>=◌}
use jmm_llvm.Common.Ast.{
  Literal, ival, bval, sval, Expr, Actuals, id_expr, lit_expr, unary_expr, binary_expr,
  bitwise_expr, assign_expr, assign_null, func_call_expr, no_actuals, actual, symbol_of,
}
use jmm_llvm.Codegen.Llvm.{Llvm, Instruction, Predicate}
use jmm_llvm.Codegen.State.{
  Codegen, given, get_type, emit, new_block, set_point, continue_in, new_string, incoming,
  current_block, current_function, value_of,
}

module _ (llvm : Llvm) where
  open llvm use {Value, Function}

  unfoldable pub codegen_lit : Literal → Codegen llvm → Outcome (Value × Codegen llvm)
  codegen_lit (ival n) c = ok (llvm.const_int n, c)
  codegen_lit (sval s) c = new_string llvm s (codes "str") c
  codegen_lit (bval b) c = ok (llvm.const_bool b, c)

  -- The instruction of `++` or `--` on the value that was loaded.
  abbrev pub Step : Type 0
  Step = Value → Value → Bytes → Instruction llvm.Value llvm.Block llvm.Function llvm.Ty

  -- The loaded value and the changed one.
  unfoldable pub increment :
      Step → Bytes → Value → Codegen llvm → Outcome (Value × Value × Codegen llvm)
  increment step name e c = do
    (load, c₁) ← emit llvm (Instruction.load llvm.int32 e) c
    (res, c₂) ← emit llvm (step load (llvm.const_int 1) name) c₁
    (_, c₃) ← emit llvm (Instruction.store res e) c₂
    ok (load, res, c₃)

  unfoldable pub codegen_unary : Op → Value → Codegen llvm → Outcome (Value × Codegen llvm)
  codegen_unary Op.postinc e c = do
    (load, _, c') ← increment Instruction.nsw_add (codes "inc") e c
    ok (load, c')
  codegen_unary Op.postdec e c = do
    (load, _, c') ← increment Instruction.nsw_sub (codes "dec") e c
    ok (load, c')
  codegen_unary Op.preinc e c = do
    (_, res, c') ← increment Instruction.nsw_add (codes "inc") e c
    ok (res, c')
  codegen_unary Op.predec e c = do
    (_, res, c') ← increment Instruction.nsw_sub (codes "dec") e c
    ok (res, c')
  codegen_unary Op.not e c = emit llvm (Instruction.not e) c
  codegen_unary Op.sub e c = emit llvm (Instruction.neg e) c
  codegen_unary _ e c = ok (llvm.null_value llvm.int32, c)

  -- The operators whose operands are both evaluated first.
  unfoldable pub codegen_strict : Op → Value → Value → Codegen llvm → Outcome (Value × Codegen llvm)
  codegen_strict Op.add l r c = emit llvm (Instruction.nsw_add l r (codes "add")) c
  codegen_strict Op.sub l r c = emit llvm (Instruction.nsw_sub l r (codes "sub")) c
  codegen_strict Op.mult l r c = emit llvm (Instruction.nsw_mul l r (codes "mult")) c
  codegen_strict Op.div l r c = emit llvm (Instruction.sdiv l r (codes "div")) c
  codegen_strict Op.modulo l r c = emit llvm (Instruction.srem l r (codes "mod")) c
  codegen_strict Op.eq l r c = emit llvm (Instruction.icmp Predicate.eq l r (codes "cmp")) c
  codegen_strict Op.ne l r c = emit llvm (Instruction.icmp Predicate.ne l r (codes "cmp")) c
  codegen_strict Op.gt l r c = emit llvm (Instruction.icmp Predicate.sgt l r (codes "cmp")) c
  codegen_strict Op.lt l r c = emit llvm (Instruction.icmp Predicate.slt l r (codes "cmp")) c
  codegen_strict Op.ge l r c = emit llvm (Instruction.icmp Predicate.sge l r (codes "cmp")) c
  codegen_strict Op.le l r c = emit llvm (Instruction.icmp Predicate.sle l r (codes "cmp")) c
  codegen_strict _ l r c = ok (llvm.null_value llvm.int32, c)

  unfoldable pub codegen_bits : Op → Value → Value → Codegen llvm → Outcome (Value × Codegen llvm)
  codegen_bits Op.band l r c = emit llvm (Instruction.and l r (codes "and")) c
  codegen_bits Op.bor l r c = emit llvm (Instruction.or l r (codes "xor")) c
  codegen_bits Op.xor l r c = emit llvm (Instruction.xor l r (codes "xor")) c
  codegen_bits Op.lshift l r c = emit llvm (Instruction.shl l r (codes "shl")) c
  codegen_bits Op.rshift l r c = emit llvm (Instruction.ashr l r (codes "asr")) c
  codegen_bits _ l r c = ok (llvm.null_value llvm.int32, c)

  -- The name of a call's result.
  abbrev pub call_name : Option Symbol → Bytes
  call_name (some s) = elim s.v_type [ VType.void ↦ [] | _ ↦ codes "call" ]
  call_name none = codes "call"

  -- The call goes through the pointer that `getFunction` returned.
  unfoldable pub call_through :
      Option Function → List Value → Bytes → Codegen llvm → Outcome (Value × Codegen llvm)
  call_through o argv name c = do f ← given o; emit llvm (Instruction.call f argv name) c

  -- The left operand of `&&` and `||` branches to the block of the right one, or to the end.
  abbrev pub branch :
      Op → Value → llvm.Block → llvm.Block → Instruction llvm.Value llvm.Block llvm.Function llvm.Ty
  branch Op.land l other end = Instruction.cond_br l other end
  branch _ l other end = Instruction.cond_br l end other

  abbrev pub other_name : Op → Bytes
  other_name Op.land = codes "lhs.true"
  other_name _ = codes "lhs.false"

  -- `&&` and `||`, with the code of the operands.
  unfoldable pub short_circuit :
      Op
      → (Codegen llvm → Outcome (Value × Codegen llvm))
      → (Codegen llvm → Outcome (Value × Codegen llvm))
      → Codegen llvm
      → Outcome (Value × Codegen llvm)
  short_circuit op left right c = do
    (l, c₁) ← left c
    block ← current_block llvm c₁
    f ← current_function llvm c₁
    (other, c₂) ← new_block llvm (other_name op) (some f) c₁
    (end, c₃) ← new_block llvm (codes "lhs.end") none c₂
    (_, c₄) ← emit llvm (branch op l other end) c₃
    c₅ ← set_point llvm other c₄
    (r, c₆) ← right c₅
    (_, c₇) ← emit llvm (Instruction.br end) c₆
    g ← current_function llvm c₇
    c₈ ← continue_in llvm g end c₇
    (phi, c₉) ← emit llvm (Instruction.phi llvm.int1 2 (codes "res")) c₈
    c₁₀ ← incoming llvm phi l block c₉
    c₁₁ ← incoming llvm phi r other c₁₀
    ok (phi, c₁₁)

  -- A binary node, with the code of its operands.
  unfoldable pub codegen_binary :
      Op
      → (Codegen llvm → Outcome (Value × Codegen llvm))
      → (Codegen llvm → Outcome (Value × Codegen llvm))
      → Codegen llvm
      → Outcome (Value × Codegen llvm)
  codegen_binary Op.land left right c = short_circuit Op.land left right c
  codegen_binary Op.lor left right c = short_circuit Op.lor left right c
  codegen_binary op left right c = do (l, c₁) ← left c; (r, c₂) ← right c₁; codegen_strict op l r c₂

  unfoldable mutual
    pub codegen_expr : Expr → Codegen llvm → Outcome (Value × Codegen llvm)
    codegen_expr (id_expr line name o) c = do
      val ← value_of llvm o c
      s ← given o
      emit llvm (Instruction.load (get_type llvm s.v_type) val) c
    codegen_expr (lit_expr line l) c = codegen_lit l c
    codegen_expr (unary_expr line op e) c = do (v, c₁) ← codegen_expr e c; codegen_unary op v c₁
    codegen_expr (binary_expr line op l r) c =
        codegen_binary op (λ c. codegen_expr l c) (λ c. codegen_expr r c) c
    codegen_expr (bitwise_expr line op l r) c = do
      (v, c₁) ← codegen_expr l c
      (w, c₂) ← codegen_expr r c₁
      codegen_bits op v w c₂
    codegen_expr (assign_expr line l r) c = do
      lhs ← value_of llvm (symbol_of l) c
      (rhs, c₁) ← codegen_expr r c
      (_, c₂) ← emit llvm (Instruction.store rhs lhs) c₁
      ok (rhs, c₂)
    codegen_expr (assign_null line l) c = fault
    codegen_expr (func_call_expr line name es o) c = do
      let func = llvm.get_function name c.state
      (argv, c₁) ← codegen_actuals es c
      call_through func argv (call_name o) c₁

    pub codegen_actuals : Actuals → Codegen llvm → Outcome (List Value × Codegen llvm)
    codegen_actuals no_actuals c = ok ([], c)
    codegen_actuals (actual e es) c = do
      (v, c₁) ← codegen_expr e c
      (vs, c₂) ← codegen_actuals es c₁
      ok (v ∷ vs, c₂)
