-- ===== src/Driver/Declarations.antt =====
-- The function visitor on declarations: the bodies that it returns are scoped, if they are typed.
use jmm_llvm.Prelude.{
  ℕ, suc, Bool, true, Option, some, List, [], ◌∷◌, Bytes, length, ◌≡◌, refl, subst, sym, arith, not,
}
use jmm_llvm.Common.Types.{VType}
use jmm_llvm.Common.Symbol.{Symbol, var_symbol}
use jmm_llvm.Common.Outcome.{Ensures, returns, ◌⟫◌, Ensures-error_if, redefined_main, no_main}
use jmm_llvm.Common.Ast.{ParamDecl, Children, Decl, func_decl, mfunc_decl, Program}
use jmm_llvm.Symtab.{
  Scope, Map, SymbolTable, insert, insert_map, query_scope, enter_block, exit_block, exit_func,
}
use jmm_llvm.Symtab.Lookup.{flatten_blocks}
use jmm_llvm.Semantic.Shape.{Shaped, InChildren}
use jmm_llvm.Semantic.Rules.{ChildrenTyped}
use jmm_llvm.Semantic.Program.{Entered, Checked, DeclTyped, Every}
use jmm_llvm.Semantic.Functions.{
  FunctionVisitor, visit_param, visit_params, visit_body, visit_decl, visit_decls, visit,
}
use jmm_llvm.Semantic.Functions.Whole.{with_formals, with_made, check_parameter_ends}
use jmm_llvm.Codegen.Scoped.{with_address, with_address-grows, ScopedChildren}
use jmm_llvm.Codegen.Program.Scope.{Bound, ScopedDecl}
use jmm_llvm.Common.Void.{both, no_voids, no_void_inside, no_void_decl}
use jmm_llvm.Driver.Reach.{Grows, AllBacked, AllBacked-Grows, insert_map-AllBacked, Around}
use jmm_llvm.Driver.Statements.{children_Reaches}
use jmm_llvm.Driver.Kept.{Kept, AllKept}

module _ (known : Bytes → Bool) where
  abbrev ParamsReach :
      List ParamDecl → SymbolTable → (ℕ → Bool) → List ParamDecl × SymbolTable → Type 0
  ParamsReach ps t live (ps', t') =
      (n : ℕ) × (m : Map) × (after : ℕ → Bool) × (t' ≡ with_formals t n m)
      × AllBacked known after m
      × Bound ps' live after
      × Grows live after
      × (length ps' ≡ length ps)

  param_Reaches :
      (p : ParamDecl) (t : SymbolTable) (live : ℕ → Bool)
      → AllBacked known live t.m_func
      → Ensures
          (λ (p', t').
            (n : ℕ) × (m : Map) × (s : Symbol) × (t' ≡ with_formals t n m)
            × AllBacked known (with_address s.address live) m
            × (p'.symbol ≡ some s))
          (visit_param p t)
  unfolding visit_param insert
  param_Reaches p t live g = check_parameter_ends p (query_scope Scope.func p.id t) ⟫ λ _ _.
      returns (
        suc t.made,
        (insert_map p.id (var_symbol p.type p.line t.made) t.m_func).0,
        var_symbol p.type p.line t.made,
        refl,
        insert_map-AllBacked known p.id _ t.m_func
            (record { variable = λ e. ground arith; function = λ e. cc })
            (AllBacked-Grows known (with_address-grows t.made live) t.m_func g),
        refl,
      )

  params_Reach :
      (ps : List ParamDecl) (t : SymbolTable) (live : ℕ → Bool)
      → AllBacked known live t.m_func
      → Ensures (ParamsReach ps t live) (visit_params ps t)
  unfolding visit_params
  params_Reach [] t live g = returns (t.made, t.m_func, live, refl, g, Bound.nil, (λ a e. e), refl)
  params_Reach (p ∷ ps) t live g = param_Reaches p t live g ⟫ λ (p', t') (n, m, s, e, g', d). rw e (
      params_Reach ps (with_formals t n m) (with_address s.address live) g'
      ⟫ λ (ps', t'') (n', m', after, e', g'', b, grows, len). returns (
        n',
        m',
        after,
        e',
        g'',
        Bound.cons s d b,
        (λ a h. grows a (with_address-grows s.address live a h)),
        omega arith,
      ))

  body_Reaches :
      (v : FunctionVisitor) (live : ℕ → Bool) {body : Children}
      → Around known live v.symtab v.symtab.m_blocks
      → InChildren Shaped body
      → Ensures
          (λ (body', v').
            (n : ℕ) × (after : ℕ → Bool) × (v' ≡ with_made v n)
            × ((ρ : VType)
                → ChildrenTyped ρ body'
                → no_void_inside body ≡ true
                → ScopedChildren known live body' after))
          (visit_body body v)
  unfolding visit_body enter_block exit_block
  body_Reaches v live o s =
      children_Reaches known v v.symtab.made [] v.symtab.m_blocks live o tt s
      ⟫ λ (body', v') (n, top, after, e, g, d, k). rw e (returns (n, after, refl, k))

  -- The visitor between two declarations.
  pub record Rests (live : ℕ → Bool) (v : FunctionVisitor) : Type 0 where
    pub rts : AllBacked known live v.symtab.m_rts
    pub globals : AllBacked known live v.symtab.m_global
    pub formals : v.symtab.m_func ≡ []
    pub blocks : v.symtab.m_blocks ≡ []

  -- The declaration that the visit returns is scoped if it passes the other checks.
  abbrev Passes : (ℕ → Bool) → Decl → Decl → Type 0
  Passes live d d' = Checked d' → DeclTyped d' → no_void_decl d ≡ true → ScopedDecl known live d'

  no_blocks : (live : ℕ → Bool) (bs : List Map) → bs ≡ [] → AllBacked known live (flatten_blocks bs)
  unfolding flatten_blocks
  no_blocks live [] e = tt
  no_blocks live (b ∷ bs) e = cc

  func-Passes :
      {N : Type 0} {live mid after : ℕ → Bool} {l : ℕ} {x : Bytes} {a : VType} {ps : List ParamDecl}
      {body : Children} {o : Option Symbol}
      → Bound ps live mid
      → ((ρ : VType) → ChildrenTyped ρ body → N → ScopedChildren known mid body after)
      → Checked (func_decl l x a ps body o)
      → DeclTyped (func_decl l x a ps body o)
      → N
      → ScopedDecl known live (func_decl l x a ps body o)
  func-Passes b k (Checked.func e r breaks) (DeclTyped.func ts) h =
      ScopedDecl.func b (k _ ts h) breaks

  main-Passes :
      {N : Type 0} {live after : ℕ → Bool} {l : ℕ} {x : Bytes} {body : Children} {o : Option Symbol}
      → ((ρ : VType) → ChildrenTyped ρ body → N → ScopedChildren known live body after)
      → Checked (mfunc_decl l x body o)
      → DeclTyped (mfunc_decl l x body o)
      → N
      → ScopedDecl known live (mfunc_decl l x body o)
  main-Passes k (Checked.main e r breaks) (DeclTyped.main ts) h = ScopedDecl.main (k _ ts h) breaks

  abbrev DeclReaches : (ℕ → Bool) → Decl → Decl × FunctionVisitor → Type 0
  DeclReaches live d (d', v') = Rests live v' × Kept d d' × Passes live d d'

  decl_Reaches :
      (v : FunctionVisitor) (live : ℕ → Bool) {d : Decl}
      → Rests live v
      → Entered d
      → Ensures (DeclReaches live d) (visit_decl d v)
  unfolding visit_decl exit_func no_void_decl
  decl_Reaches v live b Entered.gvar = returns (b, Kept.gvar, λ c t e. ScopedDecl.gvar)
  decl_Reaches v live b (Entered.func {ps = ps} {s = s} t i) =
      params_Reach ps v.symtab live (subst (AllBacked known live) (sym b.formals) tt)
      ⟫ λ (ps', t') (n, m, mid, e, d, bound, grows, len). rw e (
          body_Reaches (record v { symtab = with_formals v.symtab n m; current_function = some s })
            mid
            (record {
              rts = AllBacked-Grows known grows v.symtab.m_rts b.rts;
              globals = AllBacked-Grows known grows v.symtab.m_global b.globals;
              formals = d;
              rest = no_blocks mid v.symtab.m_blocks b.blocks;
            })
            i
          ⟫ λ (body', v') (i, after, e', k). rw e' (
              returns (
                record { rts = b.rts; globals = b.globals; formals = refl; blocks = refl },
                Kept.func len,
                func-Passes bound k,
              )))
  decl_Reaches v live b (Entered.main {l} {s = s} t i) =
      Ensures-error_if v.visited_main (redefined_main l) λ h.
        body_Reaches (record v { current_function = some s }) live
          (record {
            rts = b.rts;
            globals = b.globals;
            formals = subst (AllBacked known live) (sym b.formals) tt;
            rest = no_blocks live v.symtab.m_blocks b.blocks;
          })
          i
        ⟫ λ (body', v') (i, after, e', k). rw e' (
            returns (
              record { rts = b.rts; globals = b.globals; formals = b.formals; blocks = b.blocks },
              Kept.main,
              main-Passes k,
            ))

  -- All declarations of the program pass, where each of them is checked, typed and without `void`.
  abbrev pub AllPass : (ℕ → Bool) → Program → Program → Type 0
  AllPass live ds ds' =
      Every Checked ds'
      → Every DeclTyped ds'
      → no_voids ds ≡ true
      → Every (ScopedDecl known live) ds'

  decls_Reach :
      (v : FunctionVisitor) (live : ℕ → Bool) (ds : Program)
      → Rests live v
      → Every Entered ds
      → Ensures (λ (ds', v'). AllKept ds ds' × AllPass live ds ds') (visit_decls ds v)
  unfolding visit_decls no_voids
  decls_Reach v live [] b i = returns (AllKept.nil, λ c t e. tt)
  decls_Reach v live (d ∷ ds) b (i, is) = decl_Reaches v live b i ⟫ λ (d', v') (b', k, p).
      decls_Reach v' live ds b' is ⟫ λ (ds', v'') (ks, ps).
      returns
        (AllKept.cons k ks, λ (c, cs) (t, ts) e. (p c t (both _ _ e).0, ps cs ts (both _ _ e).1))

  -- From a visitor whose global symbols have addresses in `live` and names in `known`, the pass ends with an
  -- error or returns a tree with the same declarations; where it is checked, typed and without `void`, its bodies are scoped.
  pub visit-ScopedDecl :
      (v : FunctionVisitor) (live : ℕ → Bool) (ds : Program)
      → Rests live v
      → Every Entered ds
      → Ensures (λ (ds', v'). AllKept ds ds' × AllPass live ds ds') (visit ds v)
  unfolding visit
  visit-ScopedDecl v live ds b i = decls_Reach v live ds b i ⟫ λ (ds', v') r.
      Ensures-error_if (not v'.visited_main) no_main λ e. returns r
