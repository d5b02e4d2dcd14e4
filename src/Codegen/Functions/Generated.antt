-- ===== src/Codegen/Functions/Generated.antt =====
-- The code of a function: what the generator leaves behind the visit of its declaration.
use jmm_llvm.Prelude.{
  Option, subst, ℕ, Bool, true, Bool-cases, inl, inr, some, List, [], ◌∷◌, Bytes, ◌≡◌, refl, ◌∙◌,
  ap, codes,
}
use jmm_llvm.Common.Outcome.{sure, Returns, gives, ◌▷◌, relax, Ensures, ◌⟫◌, weaken}
use jmm_llvm.Common.Symbol.{Symbol}
use jmm_llvm.Common.Ast.{ParamDecl, Children}
use jmm_llvm.Semantic.Breaks.{AllBreaksInside}
use jmm_llvm.Codegen.Llvm.{Llvm}
use jmm_llvm.Codegen.State.{Codegen, with_state, frame, new_block, set_point}
use jmm_llvm.Codegen.Laws.{BuilderLaws, BlockLaws, Within}
use jmm_llvm.Codegen.Scoped.{with_address, ScopedChildren}
use jmm_llvm.Codegen.Ready.{current_block-Returns, Ready, Next, emit-Returns, set_value-Returns}
use jmm_llvm.Codegen.Statements.Generated.{children_Generated, all_same_loops}
use jmm_llvm.Codegen.Functions.Finished.{Finished, finish_blocks-Finished}
use jmm_llvm.Codegen.Functions.{find_function, store_args, codegen_func, codegen_main}

-- What the module offers to each body: the functions of `table` under their names, and a value for the symbols of `live`.
pub record Offers (llvm : Llvm) (table : Bytes → Option llvm.Function) (live : ℕ → Bool)
    (c : Codegen llvm) : Type 0 where
  pub functions :
      (name : Bytes) (g : llvm.Function)
      → table name ≡ some g
      → llvm.get_function name c.state ≡ some g
  pub variables : (a : ℕ) → live a ≡ true → (v : llvm.Value) × (c.values a ≡ some v)

-- One parameter with a symbol for each argument; behind them the symbols of `after` have a value.
pub data Matched {ℓ} {A : Type ℓ} : List A → List ParamDecl → (ℕ → Bool) → (ℕ → Bool) → Type ℓ where
  nil : {live : ℕ → Bool} → Matched [] [] live live
  cons :
      {a : A} {rest : List A} {p : ParamDecl} {ps : List ParamDecl} {live after : ℕ → Bool}
      (s : Symbol)
      → p.symbol ≡ some s
      → Matched rest ps (with_address s.address live) after
      → Matched (a ∷ rest) (p ∷ ps) live after

module _ (llvm : Llvm) (laws : BuilderLaws llvm) (known : Bytes → Bool)
    (table : Bytes → Option llvm.Function)
    (covers : (name : Bytes)
      → known name ≡ true
      → (g : llvm.Function) × (table name ≡ some g)) where
  offered :
      {f : llvm.Function} {live : ℕ → Bool} {c : Codegen llvm}
      → Ready llvm table f live c
      → Offers llvm table live c
  offered r = record { functions = r.functions; variables = r.variables }

  -- The state at the start of the entry block that is made for `f`.
  entry_state : llvm.Function → Codegen llvm → Codegen llvm
  entry_state f c =
      let (b, s) = llvm.create_block (codes "entry") (some f) c.state in
      with_state llvm (llvm.set_insert_point b s) c

  entry_Ready :
      (f : llvm.Function) (live : ℕ → Bool) (c : Codegen llvm)
      → Offers llvm table live c
      → Ready llvm table f live (entry_state f c)
  unfolding entry_state
  entry_Ready f live c o =
      let b = (llvm.create_block (codes "entry") (some f) c.state).0 in
      let s = (llvm.create_block (codes "entry") (some f) c.state).1 in
      let made = (laws.block_stays (codes "entry") (some f) c.state).keeps in
      let moved = laws.point_keeps b s in
      record {
        block = b;
        here = laws.point_block b s;
        inside = moved.parents b f (laws.block_parent (codes "entry") (some f) c.state);
        functions =
            λ name g h. moved.functions name g (made.functions name g (o.functions name g h));
        variables = o.variables;
      }

  store_args-Returns :
      (f : llvm.Function) {live after : ℕ → Bool} {args : List llvm.Value} {ps : List ParamDecl}
      (c : Codegen llvm)
      → Matched args ps live after
      → Ready llvm table f live c
      → Returns (Next llvm laws table f after c) (store_args llvm args ps c)
  unfolding store_args
  store_args-Returns f c Matched.nil r = gives (r, refl)
  store_args-Returns f c (Matched.cons {p} s e m) r =
      emit-Returns llvm laws table f r _ ▷ λ (alloc, c₁) ((r₁, e₁), _).
      emit-Returns llvm laws table f r₁ _ ▷ λ (_, c₂) ((r₂, e₂), _). rw e (
        set_value-Returns llvm laws table f r₂ s alloc ▷ λ c₃ (r₃, e₃).
        relax (λ _ (h, d). (h, d ∙ e₃ ∙ e₂ ∙ e₁)) (store_args-Returns f c₃ m r₃))

  Finished-Offers :
      {f : llvm.Function} {live : ℕ → Bool} {bs : List llvm.Block} {c c' : Codegen llvm}
      → Ready llvm table f live c
      → Finished llvm bs c c'
      → Offers llvm table live c'
  Finished-Offers r h = record {
    functions = λ name g k. h.keeps.functions name g (r.functions name g k);
    variables = λ a k. let (v, e) = r.variables a k in (v, ap (λ values. values a) h.values ∙ e);
  }

  found_Returns :
      (line : ℕ) (name : Bytes) (f : llvm.Function) (c : Codegen llvm)
      → llvm.get_function name c.state ≡ some f
      → Returns (λ g. g ≡ f) (find_function llvm name line c)
  unfolding find_function
  found_Returns line name f c e = rw (e, find_function) (gives refl)

  -- The visit of a function that is in the module, with a symbol for each parameter, whose body is
  -- scoped and has each `break` in a loop: the process ends with an error, or the generator leaves a module that offers the same functions and a value for each
  -- variable of the body, no loop open, and each block of the function with a terminator.
  pub codegen_func-Terminated :
      (ends : BlockLaws llvm) (f : llvm.Function) (line : ℕ) (name : Bytes) (ps : List ParamDecl)
      (body : Children) (live mid after : ℕ → Bool) (c : Codegen llvm)
      → llvm.get_function name c.state ≡ some f
      → Offers llvm table live c
      → c.while_context ≡ []
      → Matched (llvm.args f) ps live mid
      → ScopedChildren known mid body after
      → AllBreaksInside 0 body
      → Ensures
          (λ c'.
            Offers llvm table after c'
            × (frame llvm c' ≡ frame llvm c)
            × ((b : llvm.Block)
                → Within b (llvm.blocks f c'.state)
                → llvm.terminated b c'.state ≡ true))
          (codegen_func llvm line name ps body c)
  unfolding codegen_func new_block set_point entry_state
  codegen_func-Terminated ends f line name ps body live mid after c found o empty m scoped breaks =
      sure (found_Returns line name f c found) ⟫ λ g e. rw e (
        sure (store_args-Returns f (entry_state f c) m (entry_Ready f live c o)) ⟫ λ c₃ (r₃, e₃).
        sure (
          children_Generated llvm laws known table covers f c₃ scoped
            (all_same_loops llvm laws known table covers f (ap (λ p. p.0) e₃ ∙ empty) breaks) r₃)
        ⟫ λ c₄ (r₄, e₄).
            weaken
              (λ c' h. (
                Finished-Offers r₄ h,
                h.context ∙ e₄ ∙ e₃,
                λ b w. h.ended b (subst (λ bs. Within b bs) (h.blocks f) w),
              ))
              (finish_blocks-Finished llvm ends f (llvm.blocks f c₄.state) c₄
                (ends.blocks_distinct f c₄.state)))

  -- The visit of the main function, in the same way: the generator returns, and keeps its name.
  pub codegen_main-Generated :
      (f : llvm.Function) (line : ℕ) (name : Bytes) (body : Children) (live after : ℕ → Bool)
      (c : Codegen llvm)
      → llvm.get_function name c.state ≡ some f
      → Offers llvm table live c
      → c.while_context ≡ []
      → ScopedChildren known live body after
      → AllBreaksInside 0 body
      → Returns
          (λ c'. Offers llvm table after c' × (frame llvm c' ≡ (c.while_context, name)))
          (codegen_main llvm line name body c)
  unfolding codegen_main new_block set_point entry_state
  codegen_main-Generated f line name body live after c found o empty scoped breaks =
      found_Returns line name f c found ▷ λ g e. rw e (
        children_Generated llvm laws known table covers f
          (entry_state f (record c { main_func_id = name })) scoped
          (all_same_loops llvm laws known table covers f empty breaks)
          (entry_Ready f live (record c { main_func_id = name })
            (record { functions = o.functions; variables = o.variables }))
        ▷ λ c₃ (r₃, e₃). current_block-Returns llvm laws table f r₃ ▷ λ b _.
            elim (Bool-cases (llvm.terminated b c₃.state)) [
              | inl done ↦ rw done (gives (offered r₃, e₃))
              | inr more ↦ rw more (
                  emit-Returns llvm laws table f r₃ _ ▷ λ (_, c₄) ((r₄, e₄), _).
                  gives (offered r₄, e₄ ∙ e₃))
            ])
