-- ===== src/Codegen/Program/Whole.antt =====
-- The whole module of a program behind the analyzer.
use jmm_llvm.Codegen.Program.Scope.{
  ScopedDecl, functions_of, globals_of, some_main, Bound-grows, Bound-Matched, mains-some_main,
}
use jmm_llvm.Codegen.Program.{
  emit, call_through, set_point, codes, new_block, take_main, rename_variable, make_entry,
  visit_root,
}
use jmm_llvm.Codegen.Laws.{ModuleLaws, Distinct, Within, Free}
use jmm_llvm.Codegen.State.{new_block, set_point, emit}
use jmm_llvm.Codegen.Expressions.{call_through}
use jmm_llvm.Codegen.State.{with_state}
use jmm_llvm.Prelude.{
  Option-cases, refl, ◌||◌, ◌⊎◌, ==_iff, ◌==◌, bytes_eq_iff, ℕ, Bool, true, false, Bool-cases, inl,
  inr, Option, some, none, [], ◌∷◌, Bytes, bytes_eq, ◌≡◌, sym, ◌∙◌, ap, arith,
}
use jmm_llvm.Common.Ast.{Decl, gvar_decl, func_decl, mfunc_decl, Program}
use jmm_llvm.Common.Outcome.{gives, Returns, ◌⟫◌, relax, sure, Ensures, returns, weaken}
use jmm_llvm.Semantic.Program.{mains, Every, is_main_decl}
use jmm_llvm.Codegen.Llvm.{Llvm}
use jmm_llvm.Codegen.State.{Codegen}
use jmm_llvm.Codegen.Laws.{BuilderLaws, BlockLaws}
use jmm_llvm.Codegen.Scoped.{ScopedChildren-grows}
use jmm_llvm.Codegen.Functions.{codegen_decls, codegen_decl}
use jmm_llvm.Codegen.Functions.Generated.{Offers, codegen_func-Terminated, codegen_main-Generated}
use jmm_llvm.Codegen.Globals.Provided.{table_of, visit-Provides, names, Declared, Provides}

module _ (llvm : Llvm) where
  covered :
      (rts : Bytes → Bool) (ds : Program) (table : Bytes → Option llvm.Function)
      (values : ℕ → Option llvm.Value)
      → ((name : Bytes) → rts name ≡ true → (g : llvm.Function) × (table name ≡ some g))
      → Every (Provides llvm table values) ds
      → (name : Bytes) → functions_of rts ds name ≡ true
      → (g : llvm.Function) × (table name ≡ some g)
  covered rts [] table values h ps name e = h name e
  covered rts (gvar_decl _ _ _ _ ∷ ds) table values h (_, ps) name e =
      covered rts ds table values h ps name e
  covered rts (func_decl l x a qs body o ∷ ds) table values h (Provides.func f k _, ps) name e =
      elim (Bool-cases (bytes_eq x name)) [
        | inl same ↦ (f, ap table (sym ((bytes_eq_iff x name).0 same)) ∙ k)
        | inr other ↦ covered rts ds table values h ps name (ground arith)
      ]
  covered rts (mfunc_decl l x body o ∷ ds) table values h (Provides.main f k, ps) name e =
      elim (Bool-cases (bytes_eq x name)) [
        | inl same ↦ (f, ap table (sym ((bytes_eq_iff x name).0 same)) ∙ k)
        | inr other ↦ covered rts ds table values h ps name (ground arith)
      ]

  valued :
      (ds : Program) (table : Bytes → Option llvm.Function) (values : ℕ → Option llvm.Value)
      → Every (Provides llvm table values) ds
      → (a : ℕ) → globals_of ds a ≡ true
      → (v : llvm.Value) × (values a ≡ some v)
  valued [] table values ps a e = ground arith
  valued (gvar_decl l x b (some s) ∷ ds) table values (Provides.gvar v k, ps) a e =
      elim (Bool-cases (a == s.address)) [
        | inl same ↦ (v, ap values ((==_iff a s.address).0 same) ∙ k)
        | inr other ↦ valued ds table values ps a (ground arith)
      ]
  valued (gvar_decl l x b none ∷ ds) table values (h, ps) a e = elim h [ ]
  valued (func_decl _ _ _ _ _ _ ∷ ds) table values (_, ps) a e = valued ds table values ps a e
  valued (mfunc_decl _ _ _ _ ∷ ds) table values (_, ps) a e = valued ds table values ps a e

  module _ (laws : BuilderLaws llvm) (ends : BlockLaws llvm) (known : Bytes → Bool)
      (table : Bytes → Option llvm.Function)
      (covers : (name : Bytes) → known name ≡ true → (g : llvm.Function) × (table name ≡ some g))
      (values : ℕ → Option llvm.Value) (live : ℕ → Bool) where
    forget :
        {after : ℕ → Bool} {c : Codegen llvm}
        → ((a : ℕ) → live a ≡ true → after a ≡ true)
        → Offers llvm table after c
        → Offers llvm table live c
    forget h o = record { functions = o.functions; variables = λ a e. o.variables a (h a e) }

    -- The table has the function of the main name that the generator keeps.
    abbrev MainKept : Bytes → Type 0
    MainKept name = (f : llvm.Function) × (table name ≡ some f)

    -- What the visit of declarations leaves, from `c`: no loop is open, and the main function's name
    -- is kept if it was before, or if one of them is a main function.
    record Next (main : Bool) (c c' : Codegen llvm) : Type 0 where
      pub offers : Offers llvm table live c'
      pub empty : c'.while_context ≡ []
      pub main_kept : MainKept c.main_func_id ⊎ (main ≡ true) → MainKept c'.main_func_id

    same_main : (x y : Bytes) → y ≡ x → MainKept x ⊎ (false ≡ true) → MainKept y
    same_main x y e (inl (f, k)) = (f, ap table e ∙ k)
    same_main x y e (inr h) = ground arith

    decl_Next :
        (d : Decl) (c : Codegen llvm)
        → Offers llvm table live c
        → c.while_context ≡ []
        → Provides llvm table values d
        → ScopedDecl known live d
        → Ensures (Next (is_main_decl d) c) (codegen_decl llvm d c)
    unfolding codegen_decl
    decl_Next _ c o empty p ScopedDecl.gvar =
        returns (record { offers = o; empty = empty; main_kept = same_main _ _ refl })
    decl_Next (func_decl l x a ps body s) c o empty (Provides.func f k n)
          (ScopedDecl.func {mid} {after} b h breaks) =
        weaken
          (λ c' (o', e, _). record {
            offers = forget (λ n e. ScopedChildren-grows known h n (Bound-grows b n e)) o';
            empty = ap (λ p. p.0) e ∙ empty;
            main_kept = same_main _ _ (ap (λ p. p.1) e);
          })
          (codegen_func-Terminated llvm laws known table covers ends f l x ps body live mid after c
            (o.functions x f k) o empty (Bound-Matched (llvm.args f) n b) h breaks)
    decl_Next (mfunc_decl l x body s) c o empty (Provides.main f k)
          (ScopedDecl.main {after} h breaks) =
        sure (
          relax
            (λ c' (o', e). record {
              offers = forget (λ n e. ScopedChildren-grows known h n e) o';
              empty = ap (λ p. p.0) e ∙ empty;
              main_kept = λ _. (f, ap (λ p. table p.1) e ∙ k);
            })
            (codegen_main-Generated llvm laws known table covers f l x body live after c
              (o.functions x f k) o empty h breaks))

    then_main :
        (m n : Bool) {P Q R : Type 0}
        → (P ⊎ (m ≡ true) → Q)
        → (Q ⊎ (n ≡ true) → R)
        → P ⊎ ((m || n) ≡ true)
        → R
    then_main m n h k (inl p) = k (inl (h (inl p)))
    then_main true n h k (inr e) = k (inl (h (inr refl)))
    then_main false n h k (inr e) = k (inr e)

    decls_Next :
        (ds : Program) (c : Codegen llvm)
        → Offers llvm table live c
        → c.while_context ≡ []
        → Every (Provides llvm table values) ds
        → Every (ScopedDecl known live) ds
        → Ensures (Next (some_main ds) c) (codegen_decls llvm ds c)
    unfolding codegen_decls
    decls_Next [] c o empty ps hs =
        returns (record { offers = o; empty = empty; main_kept = same_main _ _ refl })
    decls_Next (d ∷ ds) c o empty (p, ps) (h, hs) = decl_Next d c o empty p h ⟫ λ c₁ n.
        weaken
          (λ c₂ m. record {
            offers = m.offers;
            empty = m.empty;
            main_kept = then_main (is_main_decl d) (some_main ds) n.main_kept m.main_kept;
          })
          (decls_Next ds c₁ n.offers n.empty ps hs)

  -- What the end of the visit leaves as it was.
  Rest : Codegen llvm → Codegen llvm → Type 0
  Rest c c' = (c'.values ≡ c.values) × (c'.while_context ≡ c.while_context)

  take_main-Rest :
      (f : llvm.Function) (c : Codegen llvm)
      → llvm.get_function c.main_func_id c.state ≡ some f
      → (g : llvm.Function) × (c' : Codegen llvm) × (take_main llvm c ≡ (some g, c')) × Rest c c'
  unfolding Rest take_main
  take_main-Rest f c e = elim (Option-cases (llvm.get_function (codes "main") c.state)) [
    | inl absent ↦ (f, c, rw (absent, take_main) (rw e refl), (refl, refl))
    | inr (g, there) ↦ (
      g,
      with_state llvm (llvm.set_function_name g (codes "main.1") c.state) c,
      rw (there, take_main) refl,
      (refl, refl),
    )
  ]

  rename_variable-Rest : (c : Codegen llvm) → Rest c (rename_variable llvm c)
  unfolding Rest rename_variable
  rename_variable-Rest c = elim (Option-cases (llvm.get_global_variable (codes "main") c.state)) [
    | inl absent ↦ rw (absent, rename_variable) (refl, refl)
    | inr (v, there) ↦ rw (there, rename_variable) (refl, refl)
  ]

  make_entry-Rest :
      (f : llvm.Function) (c : Codegen llvm) → Returns (Rest c) (make_entry llvm (some f) c)
  unfolding Rest make_entry new_block set_point call_through emit
  make_entry-Rest f c = gives (refl, refl)

  -- The visit of a program as the analyzer leaves it, from a module that has the functions of `rts`:
  -- its names differ and are free in the module (not empty, and no function or variable has them, be it
  -- private), its bodies are scoped over its functions, those of
  -- `rts` and its global variables, and one function is the main function. The generator ends the
  -- process with an error, or returns with no loop open and a value for each global variable. It
  -- reads no null pointer, no unset value and no empty stack.
  pub visit_root-Generated :
      (laws : BuilderLaws llvm) (ends : BlockLaws llvm) (modules : ModuleLaws llvm)
      (rts : Bytes → Bool) (ds : Program) (c : Codegen llvm)
      → ((name : Bytes)
          → rts name ≡ true
          → (g : llvm.Function) × (llvm.get_function name c.state ≡ some g))
      → c.while_context ≡ []
      → Every Declared ds
      → Distinct (names ds)
      → ((x : Bytes) → Within x (names ds) → Free llvm x c.state)
      → Every (ScopedDecl (functions_of rts ds) (globals_of ds)) ds
      → mains ds ≡ 1
      → Ensures
          (λ c'.
            (c'.while_context ≡ [])
            × ((a : ℕ) → globals_of ds a ≡ true → (v : llvm.Value) × (c'.values a ≡ some v)))
          (visit_root llvm ds c)
  unfolding visit_root Rest
  visit_root-Generated laws ends modules rts ds c has empty declared distinct free scoped one =
      sure (visit-Provides llvm modules ds c declared distinct free) ⟫ λ c₁ (x, ps).
      decls_Next laws ends (functions_of rts ds) (table_of llvm c₁)
        (covered rts ds (table_of llvm c₁) c₁.values
          (λ name h. let (g, e) = has name h in (g, x.functions name g e)) ps)
        c₁.values (globals_of ds) ds c₁
        (record { functions = λ _ _ e. e; variables = valued ds (table_of llvm c₁) c₁.values ps })
        (ap (λ p. p.0) x.frame_same ∙ empty) ps scoped
      ⟫ λ c₂ n.
          let (f, k) = n.main_kept (inr (mains-some_main ds one)) in
          let (g, c₃, e, (v₃, w₃)) = take_main-Rest f c₂ (n.offers.functions c₂.main_func_id f k) in
          let (v₄, w₄) = rename_variable-Rest c₃ in
          rw e (
            sure (
              relax
                (λ c' (v₅, w₅). (
                  w₅ ∙ w₄ ∙ w₃ ∙ n.empty,
                  λ a h.
                      let (v, q) = n.offers.variables a h in
                      (v, ap (λ values. values a) (v₅ ∙ v₄ ∙ v₃) ∙ q),
                ))
                (make_entry-Rest g (rename_variable llvm c₃))))
