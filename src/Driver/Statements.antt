-- ===== src/Driver/Statements.antt =====
-- The function visitor on statements: the tree that it returns is scoped, if it is typed.
use jmm_llvm.Prelude.{
  ℕ, suc, ◌==◌, Bool, true, Option, some, List, [], ◌∷◌, Bytes, ◌≡◌, refl, arith, Option-cases, inl,
  inr,
}
use jmm_llvm.Common.Types.{VType}
use jmm_llvm.Common.Symbol.{Symbol, var_symbol}
use jmm_llvm.Common.Outcome.{Ensures, returns, exits, ◌⟫◌, weaken, Ensures-error_if}
use jmm_llvm.Common.Ast.{Expr, Stmt, Children, var_decl, return_stmt}
use jmm_llvm.Symtab.{
  Map, SymbolTable, insert, find, query_scope, query_blocks, enter_block, exit_block,
}
use jmm_llvm.Symtab.Lookup.{insert_map_free, insert_map_taken}
use jmm_llvm.Semantic.Shape.{Shaped, InStmt, InChildren}
use jmm_llvm.Semantic.Rules.{HasType, StmtTyped, ChildrenTyped}
use jmm_llvm.Semantic.Functions.{
  is_none, FunctionVisitor, declare_result, visit_expr, visit_return, visit_stmt, visit_children,
}
use jmm_llvm.Semantic.Functions.Names.{expr_sound}
use jmm_llvm.Semantic.Functions.Frame.{with_top, leave_while}
use jmm_llvm.Codegen.Scoped.{with_address, with_address-grows, ScopedExpr, Scoped, ScopedChildren}
use jmm_llvm.Common.Void.{no_void, no_void_inside, not_void_lem, both}
use jmm_llvm.Driver.Parts.{
  if-Scoped, while-Scoped, if_else-Scoped, block-Scoped, expr-Scoped, cons-ScopedChildren,
}
use jmm_llvm.Driver.Reach.{
  Grows, Backed, AllBacked, enter-AllBacked, AllBacked-Grows, Around, Around-Grows, binding-Backed,
  Resolves-ScopedExpr,
}

module _ (known : Bytes → Bool) where
  -- The outcome of a visit from `v`, whose symbols have addresses in `live`: the state has a new top block, whose
  -- symbols have addresses in `after`, and behind the statement these are the ones declared.
  abbrev Reaches : FunctionVisitor → List Map → (ℕ → Bool) → Stmt → Stmt × FunctionVisitor → Type 0
  Reaches v bs live s (s', v') =
      (n : ℕ) × (top : Map) × (after : ℕ → Bool) × (v' ≡ with_top v n top bs)
      × Grows live after
      × AllBacked known after top
      × ((ρ : VType) → StmtTyped ρ s' → no_void s ≡ true → Scoped known live s' after)

  abbrev pub AllReach :
      FunctionVisitor → List Map → (ℕ → Bool) → Children → Children × FunctionVisitor → Type 0
  AllReach v bs live ss (ss', v') =
      (n : ℕ) × (top : Map) × (after : ℕ → Bool) × (v' ≡ with_top v n top bs)
      × Grows live after
      × AllBacked known after top
      × ((ρ : VType)
          → ChildrenTyped ρ ss'
          → no_void_inside ss ≡ true
          → ScopedChildren known live ss' after)

  module _ (v : FunctionVisitor) (n : ℕ) (b : Map) (bs : List Map) (live : ℕ → Bool) where
    expr_Scoped :
        {e : Expr}
        → Around known live v.symtab bs
        → AllBacked known live b
        → Shaped e
        → Ensures
            (λ e'. (a : VType) → HasType e' a → ScopedExpr known live e')
            (visit_expr e (with_top v n b bs).symtab)
    expr_Scoped o d s =
        weaken
          (λ e' r a t.
            Resolves-ScopedExpr known
              (binding-Backed known (with_top v n b bs).symtab (record {
                rts = o.rts;
                globals = o.globals;
                formals = o.formals;
                rest = enter-AllBacked known live b bs d o.rest;
              }))
              t r)
          (expr_sound _ s)

    var_symbol-Backed :
        (line : ℕ) (x : Bytes) (a : VType)
        → Backed known (with_address n live) x (var_symbol a line n)
    var_symbol-Backed line x a = record { variable = λ e. ground arith; function = λ e. cc }

    var_Reaches :
        (line : ℕ) (x : Bytes) (a : VType) (o : Option Symbol)
        → AllBacked known live b
        → Ensures
            (Reaches v bs live (var_decl line x a o))
            (visit_stmt (var_decl line x a o) (with_top v n b bs))
    unfolding visit_stmt insert query_scope query_blocks declare_result no_void
    var_Reaches line x a o d = elim (Option-cases (find x b)) [
      | inl free ↦ rw (insert_map_free x (var_symbol a line n) b free) (
          returns (
            suc n,
            (x, var_symbol a line n) ∷ b,
            with_address n live,
            refl,
            with_address-grows n live,
            (var_symbol-Backed line x a, AllBacked-Grows known (with_address-grows n live) b d),
            λ ρ t e. Scoped.var (not_void_lem a e),
          ))
      | inr (s, taken) ↦
          rw (insert_map_taken x (var_symbol a line n) s b taken) (rw (taken, query_blocks) exits)
    ]

  return_Scoped :
      (live : ℕ → Bool) (line : ℕ) (e : Expr) (t : SymbolTable)
      → Ensures (λ e'. (a : VType) → HasType e' a → ScopedExpr known live e') (visit_expr e t)
      → Ensures
          (λ o.
            (ρ : VType)
            → StmtTyped ρ (return_stmt line o)
            → Scoped known live (return_stmt line o) live)
          (visit_return line (some e) t)
  unfolding visit_return
  return_Scoped live line e t h = h ⟫ λ e' r. returns λ ρ k. value e' r k
    where
      value :
          {ρ : VType} (e' : Expr)
          → ((a : VType) → HasType e' a → ScopedExpr known live e')
          → StmtTyped ρ (return_stmt line (some e'))
          → Scoped known live (return_stmt line (some e')) live
      value e' r (StmtTyped.return_value _ t) = Scoped.return_value (r _ t)

  mutual
    unfolding visit_stmt enter_block exit_block visit_return no_void

    stmt_Reaches :
        (v : FunctionVisitor) (n : ℕ) (b : Map) (bs : List Map) (live : ℕ → Bool)
        → Around known live v.symtab bs
        → AllBacked known live b
        → {s : Stmt} → InStmt Shaped s
        → Ensures (Reaches v bs live s) (visit_stmt s (with_top v n b bs))
    stmt_Reaches v n b bs live o d (InStmt.if_ c s) = expr_Scoped v n b bs live o d c ⟫ λ c' r.
        stmt_Reaches v n b bs live o d s ⟫ λ (s', v') (i, top, after, e, g, d', k).
        rw e (returns (i, top, after, refl, g, d', λ ρ. if-Scoped r k))
    stmt_Reaches v n b bs live o d (InStmt.if_else c s t) =
        expr_Scoped v n b bs live o d c ⟫ λ c' r.
        stmt_Reaches v n b bs live o d s ⟫ λ (s', v') (i, top, mid, e, g, d', k). rw e (
          stmt_Reaches v i top bs mid (Around-Grows known g o) d' t
          ⟫ λ (t', v'') (i', top', after, e', g', d'', k'). rw e' (
              returns (
                i',
                top',
                after,
                refl,
                (λ a h. g' a (g a h)),
                d'',
                λ ρ t e. if_else-Scoped r k k' t (both _ _ e),
              )))
    stmt_Reaches v n b bs live o d (InStmt.while_ c s) = expr_Scoped v n b bs live o d c ⟫ λ c' r.
        stmt_Reaches (record v { inside_while = suc v.inside_while }) n b bs live
          (record { rts = o.rts; globals = o.globals; formals = o.formals; rest = o.rest }) d s
        ⟫ λ (s', v') (i, top, after, e, g, d', k). rw e (
            rw (leave_while v i top bs v.inside_while refl)
              (returns (i, top, after, refl, g, d', λ ρ. while-Scoped r k)))
    stmt_Reaches v n b bs live o d (InStmt.return_void {line}) =
        Ensures-error_if (is_none v.current_function) _
          λ h. returns (n, b, live, refl, (λ a e. e), d, λ ρ t e. Scoped.return_void)
    stmt_Reaches v n b bs live o d (InStmt.return_value {line} {e} s) =
        return_Scoped live line e (with_top v n b bs).symtab (expr_Scoped v n b bs live o d s)
        ⟫ λ e' r.
            Ensures-error_if (is_none v.current_function) _
              λ h. returns (n, b, live, refl, (λ a e. e), d, λ ρ t _. r ρ t)
    stmt_Reaches v n b bs live o d (InStmt.break_ {line}) =
        Ensures-error_if (v.inside_while == 0) _
          λ h. returns (n, b, live, refl, (λ a e. e), d, λ ρ t e. Scoped.break_)
    stmt_Reaches v n b bs live o d (InStmt.block ss) =
        children_Reaches v n [] (b ∷ bs) live
          (record {
            rts = o.rts;
            globals = o.globals;
            formals = o.formals;
            rest = enter-AllBacked known live b bs d o.rest;
          })
          tt ss
        ⟫ λ (ss', v') (i, top, after, e, g, d', k).
            rw e (returns (i, b, after, refl, g, AllBacked-Grows known g b d, λ ρ. block-Scoped k))
    stmt_Reaches v n b bs live o d (InStmt.expr s) = expr_Scoped v n b bs live o d s ⟫ λ _ r.
        returns (n, b, live, refl, (λ a e. e), d, λ ρ t _. expr-Scoped r t)
    stmt_Reaches v n b bs live o d InStmt.null =
        returns (n, b, live, refl, (λ a e. e), d, λ ρ t e. Scoped.null)
    stmt_Reaches v n b bs live o d (InStmt.var {line} {x} {a} {o = s}) =
        var_Reaches v n b bs live line x a s d

    pub children_Reaches :
        (v : FunctionVisitor) (n : ℕ) (b : Map) (bs : List Map) (live : ℕ → Bool)
        → Around known live v.symtab bs
        → AllBacked known live b
        → {ss : Children} → InChildren Shaped ss
        → Ensures (AllReach v bs live ss) (visit_children ss (with_top v n b bs))
    children_Reaches v n b bs live o d InChildren.nil =
        returns (n, b, live, refl, (λ a e. e), d, λ ρ t e. ScopedChildren.nil)
    children_Reaches v n b bs live o d (InChildren.cons s ss) =
        stmt_Reaches v n b bs live o d s ⟫ λ (s', v') (i, top, mid, e, g, d', k). rw e (
          children_Reaches v i top bs mid (Around-Grows known g o) d' ss
          ⟫ λ (ss', v'') (i', top', after, e', g', d'', k'). rw e' (
              returns (
                i',
                top',
                after,
                refl,
                (λ a h. g' a (g a h)),
                d'',
                λ ρ t e. cons-ScopedChildren k k' t (both _ _ e),
              )))
