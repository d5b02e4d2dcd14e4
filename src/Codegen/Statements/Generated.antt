-- ===== src/Codegen/Statements/Generated.antt =====
-- The code of a scoped statement: the generator gives a state that is ready for the next one.
use jmm_llvm.Prelude.{
  true, subst, ℕ, Bool, some, none, List, [], ◌∷◌, length, Bytes, ◌≡◌, ◌≢◌, ◌<◌, refl, sym, ◌∙◌, ap,
  arith,
}
use jmm_llvm.Common.Types.{VType}
use jmm_llvm.Common.Outcome.{Returns-ok, Outcome, Returns, gives, ◌▷◌, relax}
use jmm_llvm.Common.Ast.{Expr, Stmt, Children}
use jmm_llvm.Codegen.Llvm.{Instruction, Llvm}
use jmm_llvm.Codegen.State.{frame, Codegen, emit}
use jmm_llvm.Codegen.Laws.{Keeps-trans, BuilderLaws}
use jmm_llvm.Codegen.Scoped.{ScopedExpr, Scoped, ScopedChildren}
use jmm_llvm.Semantic.Breaks.{BreaksInside, AllBreaksInside}
use jmm_llvm.Codegen.Ready.{
  Ready, Next, emit-Returns, new_block-Returns, set_point-Returns, continue_in-Returns,
  current_function-Returns, set_value-Returns, move,
}
use jmm_llvm.Codegen.Expressions.Evaluated.{expr_Evaluates}
use jmm_llvm.Codegen.Statements.{
  Option, ok, push_context, top_context, pop_context, local_type, make_slot, codegen_return,
  codegen_stmt, codegen_children,
}

module _ (llvm : Llvm) (laws : BuilderLaws llvm) (known : Bytes → Bool)
    (table : Bytes → Option llvm.Function)
    (covers : (name : Bytes) → known name ≡ true → (g : llvm.Function) × (table name ≡ some g))
    (f : llvm.Function) where
  open llvm use {Value}

  abbrev pub Generated : (ℕ → Bool) → Codegen llvm → Outcome (Codegen llvm) → Type 0
  Generated live c = Returns (Next llvm laws table f live c)

  pushed :
      {live : ℕ → Bool} {c : Codegen llvm} (b : llvm.Block)
      → Ready llvm table f live c
      → Ready llvm table f live (push_context llvm b c)
  pushed b r = record {
    block = r.block;
    here = r.here;
    inside = r.inside;
    functions = r.functions;
    variables = r.variables;
  }

  popped :
      {live : ℕ → Bool} {c : Codegen llvm} (b : llvm.Block) (bs : List llvm.Block) (main : Bytes)
      → Ready llvm table f live c
      → frame llvm c ≡ (b ∷ bs, main)
      → Returns
          (λ c'. Ready llvm table f live c' × (frame llvm c' ≡ (bs, main)))
          (pop_context llvm c)
  unfolding pop_context
  popped b bs main r e = rw (ap (λ p. p.0) e) (
      gives (
        record {
          block = r.block;
          here = r.here;
          inside = r.inside;
          functions = r.functions;
          variables = r.variables;
        },
        ap (λ p. (bs, p.1)) e,
      ))

  same_loops :
      {bs cs : List llvm.Block} {s : Stmt}
      → cs ≡ bs
      → BreaksInside (length bs) s
      → BreaksInside (length cs) s
  same_loops {s} e k = subst (λ bs. BreaksInside (length bs) s) (sym e) k

  pub all_same_loops :
      {bs cs : List llvm.Block} {ss : Children}
      → cs ≡ bs
      → AllBreaksInside (length bs) ss
      → AllBreaksInside (length cs) ss
  all_same_loops {ss} e k = subst (λ bs. AllBreaksInside (length bs) ss) (sym e) k

  top_Returns :
      (bs : List llvm.Block) → 0 < length bs → Returns (λ _. Unit {0}) (top_context llvm bs)
  unfolding top_context
  top_Returns [] h = ground arith
  top_Returns (b ∷ bs) h = gives tt

  type_Returns : (a : VType) → a ≢ VType.void → Returns (λ _. Unit {0}) (local_type llvm a)
  unfolding local_type
  type_Returns VType.int h = gives tt
  type_Returns VType.str h = gives tt
  type_Returns VType.bool h = gives tt
  type_Returns VType.void h = elim (h refl) [ ]

  module _ {live : ℕ → Bool} {c : Codegen llvm} (r : Ready llvm table f live c) where
    slot_Returns :
        (x : Bytes) (a : VType)
        → a ≢ VType.void
        → Returns (λ (v, c'). Next llvm laws table f live c c') (make_slot llvm f x a c)
    unfolding make_slot emit
    slot_Returns x a h = type_Returns a h ▷ λ t _.
        let s₁ = (llvm.save_and_clear c.state).1 in
        let s₂ = llvm.set_past_allocas f s₁ in
        let s₃ = (llvm.build (Instruction.alloca t x) s₂).1 in
        let k = Keeps-trans (laws.save_keeps c.state) (
          Keeps-trans (laws.allocas_keeps f s₁) (
            Keeps-trans (laws.build_stays (Instruction.alloca t x) s₂).keeps
              (laws.restore_keeps (llvm.save_and_clear c.state).0 s₃))) in
        gives (
          move llvm laws table f r.block r k.functions (laws.restore_block c.state s₃ ∙ r.here)
              (k.parents r.block f r.inside),
          refl,
        )

    return_Generated :
        {e : Expr} → ScopedExpr known live e → Generated live c (codegen_return llvm (some e) c)
    unfolding codegen_return
    return_Generated h = expr_Evaluates llvm laws known table covers f h c r ▷ λ (v, c₁) (r₁, e₁).
        emit-Returns llvm laws table f r₁ _ ▷ λ (_, c₂) ((r₂, e₂), _). gives (r₂, e₂ ∙ e₁)

    return_void_Generated : Generated live c (codegen_return llvm none c)
    unfolding codegen_return
    return_void_Generated =
        emit-Returns llvm laws table f r _ ▷ λ (_, c₁) ((r₁, e₁), _). gives (r₁, e₁)

  -- The loops around a statement are those whose ends the generator keeps.
  mutual
    unfolding codegen_stmt

    stmt_Generated :
        {live after : ℕ → Bool} {s : Stmt} (c : Codegen llvm)
        → Scoped known live s after
        → BreaksInside (length c.while_context) s
        → Ready llvm table f live c
        → Returns (Next llvm laws table f after c) (codegen_stmt llvm s c)
    stmt_Generated c (Scoped.if_ h hs) (BreaksInside.if_ k) r =
        current_function-Returns llvm laws table f r ▷ λ g e. rw e (
          expr_Evaluates llvm laws known table covers f h c r ▷ λ (v, c₁) (r₁, e₁).
          new_block-Returns llvm laws table f r₁ _ _ ▷ λ (then, c₂) ((r₂, e₂), _, p).
          new_block-Returns llvm laws table f r₂ _ _ ▷ λ (end, c₃) ((r₃, e₃), k₃, _).
          emit-Returns llvm laws table f r₃ _ ▷ λ (_, c₄) ((r₄, e₄), k₄).
          set_point-Returns llvm laws table f r₄ then (k₄.parents _ _ (k₃.parents _ _ p))
          ▷ λ c₅ (r₅, e₅).
              let loops = e₅ ∙ e₄ ∙ e₃ ∙ e₂ ∙ e₁ in
              stmt_Generated c₅ hs (same_loops (ap (λ p. p.0) loops) k) r₅ ▷ λ c₆ (r₆, e₆).
              emit-Returns llvm laws table f r₆ _ ▷ λ (_, c₇) ((r₇, e₇), _).
              relax (λ _ (h, e). (h, e ∙ e₇ ∙ e₆ ∙ loops))
                (continue_in-Returns llvm laws table f r₇ end))
    stmt_Generated c (Scoped.if_else h hs ht) (BreaksInside.if_else k k') r =
        current_function-Returns llvm laws table f r ▷ λ g e. rw e (
          expr_Evaluates llvm laws known table covers f h c r ▷ λ (v, c₁) (r₁, e₁).
          new_block-Returns llvm laws table f r₁ _ _ ▷ λ (then, c₂) ((r₂, e₂), _, p).
          new_block-Returns llvm laws table f r₂ _ _ ▷ λ (other, c₃) ((r₃, e₃), k₃, _).
          new_block-Returns llvm laws table f r₃ _ _ ▷ λ (end, c₄) ((r₄, e₄), k₄, _).
          emit-Returns llvm laws table f r₄ _ ▷ λ (_, c₅) ((r₅, e₅), k₅).
          set_point-Returns llvm laws table f r₅ then
            (k₅.parents _ _ (k₄.parents _ _ (k₃.parents _ _ p)))
          ▷ λ c₆ (r₆, e₆).
              let loops = e₆ ∙ e₅ ∙ e₄ ∙ e₃ ∙ e₂ ∙ e₁ in
              stmt_Generated c₆ hs (same_loops (ap (λ p. p.0) loops) k) r₆ ▷ λ c₇ (r₇, e₇).
              emit-Returns llvm laws table f r₇ _ ▷ λ (_, c₈) ((r₈, e₈), _).
              continue_in-Returns llvm laws table f r₈ other ▷ λ c₉ (r₉, e₉).
              let loops' = e₉ ∙ e₈ ∙ e₇ ∙ loops in
              stmt_Generated c₉ ht (same_loops (ap (λ p. p.0) loops') k') r₉ ▷ λ c₁₀ (r₁₀, e₁₀).
              emit-Returns llvm laws table f r₁₀ _ ▷ λ (_, c₁₁) ((r₁₁, e₁₁), _).
              relax (λ _ (h, e). (h, e ∙ e₁₁ ∙ e₁₀ ∙ loops'))
                (continue_in-Returns llvm laws table f r₁₁ end))
    stmt_Generated c (Scoped.while_ h hs) (BreaksInside.while_ k) r =
        current_function-Returns llvm laws table f r ▷ λ g e. rw e (
          new_block-Returns llvm laws table f r _ _ ▷ λ (cond, c₁) ((r₁, e₁), _, p).
          emit-Returns llvm laws table f r₁ _ ▷ λ (_, c₂) ((r₂, e₂), k₂).
          set_point-Returns llvm laws table f r₂ cond (k₂.parents _ _ p) ▷ λ c₃ (r₃, e₃).
          expr_Evaluates llvm laws known table covers f h c₃ r₃ ▷ λ (v, c₄) (r₄, e₄).
          new_block-Returns llvm laws table f r₄ _ _ ▷ λ (loop, c₅) ((r₅, e₅), _, _).
          new_block-Returns llvm laws table f r₅ _ _ ▷ λ (end, c₆) ((r₆, e₆), _, _).
          emit-Returns llvm laws table f r₆ _ ▷ λ (_, c₇) ((r₇, e₇), _).
          continue_in-Returns llvm laws table f (pushed end r₇) loop ▷ λ c₉ (r₉, e₉).
          let outside = e₇ ∙ e₆ ∙ e₅ ∙ e₄ ∙ e₃ ∙ e₂ ∙ e₁ in
          let loops = e₉ ∙ ap (λ p. (end ∷ p.0, p.1)) outside in
          stmt_Generated c₉ hs (same_loops (ap (λ p. p.0) loops) k) r₉ ▷ λ c₁₀ (r₁₀, e₁₀).
          emit-Returns llvm laws table f r₁₀ _ ▷ λ (_, c₁₁) ((r₁₁, e₁₁), _).
          continue_in-Returns llvm laws table f r₁₁ end ▷ λ c₁₂ (r₁₂, e₁₂).
          popped end c.while_context c.main_func_id r₁₂ (e₁₂ ∙ e₁₁ ∙ e₁₀ ∙ loops))
    stmt_Generated c Scoped.return_void k r = return_void_Generated r
    stmt_Generated c (Scoped.return_value h) k r = return_Generated r h
    stmt_Generated c Scoped.break_ (BreaksInside.break_ h) r =
        top_Returns c.while_context h ▷ λ end _.
        emit-Returns llvm laws table f r _ ▷ λ (_, c₁) ((r₁, e₁), _). gives (r₁, e₁)
    stmt_Generated c (Scoped.block hs) (BreaksInside.block ks) r = children_Generated c hs ks r
    stmt_Generated c (Scoped.expr h) k r =
        expr_Evaluates llvm laws known table covers f h c r ▷ λ _ h. gives h
    stmt_Generated c Scoped.null k r = gives (r, refl)
    stmt_Generated c (Scoped.var h) k r = current_function-Returns llvm laws table f r ▷ λ g e.
        rw e (
          slot_Returns r _ _ h ▷ λ (v, c₁) (r₁, e₁).
          relax (λ _ (h, e). (h, e ∙ e₁)) (set_value-Returns llvm laws table f r₁ _ v))

    pub children_Generated :
        {live after : ℕ → Bool} {ss : Children} (c : Codegen llvm)
        → ScopedChildren known live ss after
        → AllBreaksInside (length c.while_context) ss
        → Ready llvm table f live c
        → Returns (Next llvm laws table f after c) (codegen_children llvm ss c)
    children_Generated c ScopedChildren.nil k r = gives (r, refl)
    children_Generated c (ScopedChildren.cons h hs) (AllBreaksInside.cons k ks) r =
        stmt_Generated c h k r ▷ λ c₁ (r₁, e₁).
        relax (λ _ (h, e). (h, e ∙ e₁))
          (children_Generated c₁ hs (all_same_loops (ap (λ p. p.0) e₁) ks) r₁)

  -- The code of a statement whose variables are declared before they are used, whose functions are in
  -- the module and whose `break`s stand in as many loops as the generator has open: the generator
  -- returns, with the builder in the same function, the same loops open, the name of the main function
  -- as before, and a value for each variable that the statement declares.
  pub codegen_stmt-Ready :
      (live after : ℕ → Bool) (s : Stmt) (c : Codegen llvm)
      → Scoped known live s after
      → BreaksInside (length c.while_context) s
      → Ready llvm table f live c
      → (c' : Codegen llvm) × (codegen_stmt llvm s c ≡ ok c')
        × Ready llvm table f after c'
        × (c'.while_context ≡ c.while_context)
        × (c'.main_func_id ≡ c.main_func_id)
  codegen_stmt-Ready live after s c scoped breaks ready =
      let (c', e, (r, k)) = Returns-ok (stmt_Generated c scoped breaks ready) in
      (c', e, r, ap (λ p. p.0) k, ap (λ p. p.1) k)
