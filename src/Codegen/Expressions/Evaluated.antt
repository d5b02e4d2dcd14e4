-- ===== src/Codegen/Expressions/Evaluated.antt =====
-- The code of a scoped expression: the generator gives a value, and leaves the builder in the function
-- and the stack of loops as it was.
use jmm_llvm.Prelude.{true, ◌≡◌, ℕ, Bool, some, List, Bytes, refl, ◌∙◌}
use jmm_llvm.Common.Types.{Op}
use jmm_llvm.Common.Outcome.{relax, Outcome, Returns, gives, ◌▷◌}
use jmm_llvm.Common.Ast.{Literal, Expr, Actuals, ival, bval, sval}
use jmm_llvm.Codegen.Llvm.{Llvm, Instruction}
use jmm_llvm.Codegen.State.{emit, Codegen}
use jmm_llvm.Codegen.Laws.{BuilderLaws}
use jmm_llvm.Codegen.Scoped.{ScopedExpr, AllScoped}
use jmm_llvm.Codegen.Ready.{
  Ready, Next, emit-Returns, new_block-Returns, new_string-Returns, incoming-Returns,
  set_point-Returns, continue_in-Returns, current_block-Returns, current_function-Returns,
  value_of-Returns,
}
use jmm_llvm.Codegen.Expressions.{
  Option, codegen_lit, Step, increment, codegen_unary, codegen_strict, codegen_bits, call_through,
  short_circuit, codegen_binary, codegen_expr, codegen_actuals,
}

module _ (llvm : Llvm) (laws : BuilderLaws llvm) (known : Bytes → Bool)
    (table : Bytes → Option llvm.Function)
    (covers : (name : Bytes) → known name ≡ true → (g : llvm.Function) × (table name ≡ some g))
    (f : llvm.Function) where
  open llvm use {Value}

  -- The outcome of the code of an expression.
  abbrev pub Evaluated : (ℕ → Bool) → Codegen llvm → Outcome (Value × Codegen llvm) → Type 0
  Evaluated live c = Returns (λ (v, c'). Next llvm laws table f live c c')

  -- The code of an expression from any state that is ready.
  abbrev pub Evaluates : (ℕ → Bool) → (Codegen llvm → Outcome (Value × Codegen llvm)) → Type 0
  Evaluates live run = (c : Codegen llvm) → Ready llvm table f live c → Evaluated live c (run c)

  module _ {live : ℕ → Bool} {c : Codegen llvm} (r : Ready llvm table f live c) where
    lit_Evaluated : (l : Literal) → Evaluated live c (codegen_lit llvm l c)
    unfolding codegen_lit
    lit_Evaluated (ival n) = gives (r, refl)
    lit_Evaluated (bval b) = gives (r, refl)
    lit_Evaluated (sval s) = new_string-Returns llvm laws table f r s _

    increment-Returns :
        (step : Step llvm) (name : Bytes) (e : Value)
        → Returns (λ (_, _, c'). Next llvm laws table f live c c') (increment llvm step name e c)
    unfolding increment
    increment-Returns step name e = emit-Returns llvm laws table f r _ ▷ λ (load, c₁) ((r₁, e₁), _).
        emit-Returns llvm laws table f r₁ _ ▷ λ (res, c₂) ((r₂, e₂), _).
        emit-Returns llvm laws table f r₂ _ ▷ λ (_, c₃) ((r₃, e₃), _). gives (r₃, e₃ ∙ e₂ ∙ e₁)

    built :
        (i : Instruction llvm.Value llvm.Block llvm.Function llvm.Ty)
        → Evaluated live c (emit llvm i c)
    built i = relax (λ _ h. h.0) (emit-Returns llvm laws table f r i)

    unary_Evaluated : (op : Op) (e : Value) → Evaluated live c (codegen_unary llvm op e c)
    unfolding codegen_unary
    unary_Evaluated Op.postinc e = increment-Returns _ _ e ▷ λ _ h. gives h
    unary_Evaluated Op.postdec e = increment-Returns _ _ e ▷ λ _ h. gives h
    unary_Evaluated Op.preinc e = increment-Returns _ _ e ▷ λ _ h. gives h
    unary_Evaluated Op.predec e = increment-Returns _ _ e ▷ λ _ h. gives h
    unary_Evaluated Op.not e = built _
    unary_Evaluated Op.sub e = built _
    unary_Evaluated _ e = gives (r, refl)

    strict_Evaluated : (op : Op) (v w : Value) → Evaluated live c (codegen_strict llvm op v w c)
    unfolding codegen_strict
    strict_Evaluated Op.add v w = built _
    strict_Evaluated Op.sub v w = built _
    strict_Evaluated Op.mult v w = built _
    strict_Evaluated Op.div v w = built _
    strict_Evaluated Op.modulo v w = built _
    strict_Evaluated Op.eq v w = built _
    strict_Evaluated Op.ne v w = built _
    strict_Evaluated Op.gt v w = built _
    strict_Evaluated Op.lt v w = built _
    strict_Evaluated Op.ge v w = built _
    strict_Evaluated Op.le v w = built _
    strict_Evaluated _ v w = gives (r, refl)

    bits_Evaluated : (op : Op) (v w : Value) → Evaluated live c (codegen_bits llvm op v w c)
    unfolding codegen_bits
    bits_Evaluated Op.band v w = built _
    bits_Evaluated Op.bor v w = built _
    bits_Evaluated Op.xor v w = built _
    bits_Evaluated Op.lshift v w = built _
    bits_Evaluated Op.rshift v w = built _
    bits_Evaluated _ v w = gives (r, refl)

    call_Evaluated :
        (g : llvm.Function) (vs : List Value) (name : Bytes)
        → Evaluated live c (call_through llvm (some g) vs name c)
    unfolding call_through
    call_Evaluated g vs name = built _

  short_circuit-Evaluates :
      {live : ℕ → Bool} (op : Op) {left right : Codegen llvm → Outcome (Value × Codegen llvm)}
      → Evaluates live left
      → Evaluates live right
      → Evaluates live (short_circuit llvm op left right)
  unfolding short_circuit
  short_circuit-Evaluates op left right c r = left c r ▷ λ (l, c₁) (r₁, e₁).
      current_block-Returns llvm laws table f r₁ ▷ λ block _.
      current_function-Returns llvm laws table f r₁ ▷ λ g e. rw e (
        new_block-Returns llvm laws table f r₁ _ _ ▷ λ (other, c₂) ((r₂, e₂), _, p).
        new_block-Returns llvm laws table f r₂ _ _ ▷ λ (end, c₃) ((r₃, e₃), k₃, _).
        emit-Returns llvm laws table f r₃ _ ▷ λ (_, c₄) ((r₄, e₄), k₄).
        set_point-Returns llvm laws table f r₄ other (k₄.parents _ _ (k₃.parents _ _ p))
        ▷ λ c₅ (r₅, e₅). right c₅ r₅ ▷ λ (v, c₆) (r₆, e₆).
            emit-Returns llvm laws table f r₆ _ ▷ λ (_, c₇) ((r₇, e₇), _).
            current_function-Returns llvm laws table f r₇ ▷ λ h d. rw d (
              continue_in-Returns llvm laws table f r₇ end ▷ λ c₈ (r₈, e₈).
              emit-Returns llvm laws table f r₈ _ ▷ λ (phi, c₉) ((r₉, e₉), _).
              incoming-Returns llvm laws table f r₉ phi l block ▷ λ c₁₀ (r₁₀, e₁₀).
              incoming-Returns llvm laws table f r₁₀ phi v other ▷ λ c₁₁ (r₁₁, e₁₁).
              gives (r₁₁, e₁₁ ∙ e₁₀ ∙ e₉ ∙ e₈ ∙ e₇ ∙ e₆ ∙ e₅ ∙ e₄ ∙ e₃ ∙ e₂ ∙ e₁)))

  binary_Evaluates :
      {live : ℕ → Bool} (op : Op) {left right : Codegen llvm → Outcome (Value × Codegen llvm)}
      → Evaluates live left
      → Evaluates live right
      → Evaluates live (codegen_binary llvm op left right)
  unfolding codegen_binary
  binary_Evaluates Op.land left right = short_circuit-Evaluates Op.land left right
  binary_Evaluates Op.lor left right = short_circuit-Evaluates Op.lor left right
  binary_Evaluates op left right = λ c r. left c r ▷ λ (v, c₁) (r₁, e₁).
      right c₁ r₁ ▷ λ (w, c₂) (r₂, e₂).
      relax (λ _ (h, e). (h, e ∙ e₂ ∙ e₁)) (strict_Evaluated r₂ op v w)

  mutual
    unfolding codegen_expr

    pub expr_Evaluates :
        {live : ℕ → Bool} {e : Expr}
        → ScopedExpr known live e
        → Evaluates live (λ c. codegen_expr llvm e c)
    expr_Evaluates (ScopedExpr.id {s} h) c r =
        value_of-Returns llvm laws table f r s h ▷ λ v _. built r _
    expr_Evaluates (ScopedExpr.lit {l}) c r = lit_Evaluated r l
    expr_Evaluates (ScopedExpr.unary {op} h) c r = expr_Evaluates h c r ▷ λ (v, c₁) (r₁, e₁).
        relax (λ _ (h, e). (h, e ∙ e₁)) (unary_Evaluated r₁ op v)
    expr_Evaluates (ScopedExpr.binary {op} h k) c r =
        binary_Evaluates op (λ c r. expr_Evaluates h c r) (λ c r. expr_Evaluates k c r) c r
    expr_Evaluates (ScopedExpr.bitwise {op} h k) c r = expr_Evaluates h c r ▷ λ (v, c₁) (r₁, e₁).
        expr_Evaluates k c₁ r₁ ▷ λ (w, c₂) (r₂, e₂).
        relax (λ _ (h, e). (h, e ∙ e₂ ∙ e₁)) (bits_Evaluated r₂ op v w)
    expr_Evaluates (ScopedExpr.assign s e h k) c r = rw e (
        value_of-Returns llvm laws table f r s h ▷ λ lhs _.
        expr_Evaluates k c r ▷ λ (v, c₁) (r₁, e₁).
        emit-Returns llvm laws table f r₁ _ ▷ λ (_, c₂) ((r₂, e₂), _). gives (r₂, e₂ ∙ e₁))
    expr_Evaluates (ScopedExpr.call {f = name} {o} h hs) c r =
        let (g, e) = covers name h in
        rw (r.functions name g e) (
          actuals_Evaluate hs c r ▷ λ (vs, c₁) (r₁, e₁).
          relax (λ _ (h, e). (h, e ∙ e₁)) (call_Evaluated r₁ g vs _))

    actuals_Evaluate :
        {live : ℕ → Bool} {es : Actuals}
        → AllScoped known live es
        → (c : Codegen llvm) → Ready llvm table f live c
        → Returns (λ (_, c'). Next llvm laws table f live c c') (codegen_actuals llvm es c)
    actuals_Evaluate AllScoped.nil c r = gives (r, refl)
    actuals_Evaluate (AllScoped.cons h hs) c r = expr_Evaluates h c r ▷ λ (v, c₁) (r₁, e₁).
        actuals_Evaluate hs c₁ r₁ ▷ λ (vs, c₂) (r₂, e₂). gives (r₂, e₂ ∙ e₁)
