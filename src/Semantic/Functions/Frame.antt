-- ===== src/Semantic/Functions/Frame.antt =====
-- What the function visitor changes: a statement extends the innermost block, makes symbols, and no more.
use jmm_llvm.Common.Types.{VType}
use jmm_llvm.Prelude.{
  sym, subst, inr, inl, Option-cases, ℕ, suc, ◌-◌, ◌==◌, Option, some, ◌≡◌, refl, Bytes, List, [],
  ◌∷◌, arith,
}
use jmm_llvm.Common.Symbol.{Symbol, var_symbol}
use jmm_llvm.Common.Outcome.{Ensures, returns, exits, ◌⟫◌, Ensures-error_if}
use jmm_llvm.Common.Ast.{return_stmt, Expr, Stmt, Children, var_decl}
use jmm_llvm.Symtab.{
  Map, SymbolTable, insert, find, query_scope, query_blocks, enter_block, exit_block,
}
use jmm_llvm.Semantic.Shape.{Shaped, Resolved, InStmt, InChildren}
use jmm_llvm.Semantic.Functions.{
  is_none, FunctionVisitor, declare_result, visit_expr, visit_return, visit_stmt, visit_children,
}
use jmm_llvm.Semantic.Functions.Names.{visit_expr-Resolved}
use jmm_llvm.Semantic.Breaks.{BreaksInside, AllBreaksInside}
use jmm_llvm.Semantic.Functions.Declared.{AllDeclared, AllBlocks, WellDeclared, binding-IsDeclared}
use jmm_llvm.Symtab.Lookup.{insert_map_free, insert_map_taken}

-- The visitor `v` with the blocks `b ∷ bs`, when `n` symbols were made.
abbrev pub with_top : FunctionVisitor → ℕ → Map → List Map → FunctionVisitor
with_top v n b bs = record v { symtab = record v.symtab { made = n; m_blocks = b ∷ bs } }

-- What the scopes around the innermost block hold.
pub record Outer (v : FunctionVisitor) (bs : List Map) : Type 0 where
  pub rts : AllDeclared v.symtab.m_rts
  pub globals : AllDeclared v.symtab.m_global
  pub formals : AllDeclared v.symtab.m_func
  pub rest : AllBlocks bs

table :
    {v : FunctionVisitor} {n : ℕ} {b : Map} {bs : List Map}
    → Outer v bs
    → AllDeclared b
    → WellDeclared (with_top v n b bs).symtab
table o d = record { rts = o.rts; globals = o.globals; formals = o.formals; blocks = (d, o.rest) }

-- The outcome of a visit from `v`: the node `s'` is resolved, the state is `v` with a new top block.
abbrev pub Framed : FunctionVisitor → List Map → Stmt × FunctionVisitor → Type 0
Framed v bs (s', v') =
    (n : ℕ) × (top : Map) × (v' ≡ with_top v n top bs)
    × AllDeclared top
    × InStmt Resolved s'
    × BreaksInside v.inside_while s'

module _ (v : FunctionVisitor) (n : ℕ) (b : Map) (bs : List Map) where
  expr_Resolved :
      {e : Expr}
      → Outer v bs
      → AllDeclared b
      → Shaped e
      → Ensures Resolved (visit_expr e (with_top v n b bs).symtab)
  expr_Resolved o d s = visit_expr-Resolved _ (binding-IsDeclared (table o d)) s

  var_Framed :
      (line : ℕ) (x : Bytes) (a : VType) (o : Option Symbol)
      → AllDeclared b
      → Ensures (Framed v bs) (visit_stmt (var_decl line x a o) (with_top v n b bs))
  unfolding visit_stmt insert query_scope query_blocks declare_result
  var_Framed line x a o d = elim (Option-cases (find x b)) [
    | inl free ↦ rw (insert_map_free x (var_symbol a line n) b free) (
        returns (
          suc n,
          (x, var_symbol a line n) ∷ b,
          refl,
          (λ c. cc c.function, d),
          InStmt.var,
          BreaksInside.var,
        ))
    | inr (s, taken) ↦
        rw (insert_map_taken x (var_symbol a line n) s b taken) (rw (taken, query_blocks) exits)
  ]

-- Leaving the block that was entered restores the state.
abbrev pub BlockFramed : FunctionVisitor → List Map → Children × FunctionVisitor → Type 0
BlockFramed v bs (ss', v') =
    (n : ℕ) × (top : Map) × (v' ≡ with_top v n top bs)
    × AllDeclared top
    × InChildren Resolved ss'
    × AllBreaksInside v.inside_while ss'

return_Resolved :
    (line : ℕ) (e : Expr) (t : SymbolTable)
    → Ensures Resolved (visit_expr e t)
    → Ensures (λ o. (e' : Expr) × (o ≡ some e') × Resolved e') (visit_return line (some e) t)
unfolding visit_return
return_Resolved line e t h = h ⟫ λ e' r. returns (e', refl, r)

pub leave_while :
    (v : FunctionVisitor) (n : ℕ) (b : Map) (bs : List Map) (k : ℕ)
    → v.inside_while ≡ k
    → record (with_top v n b bs) { inside_while = suc k - 1 } ≡ with_top v n b bs
leave_while v n b bs k e = ground arith

mutual
  unfolding visit_stmt enter_block exit_block visit_return

  stmt_Framed :
      (v : FunctionVisitor) (n : ℕ) (b : Map) (bs : List Map)
      → Outer v bs
      → AllDeclared b
      → {s : Stmt} → InStmt Shaped s
      → Ensures (Framed v bs) (visit_stmt s (with_top v n b bs))
  stmt_Framed v n b bs o d (InStmt.if_ c s) = expr_Resolved v n b bs o d c ⟫ λ c' r.
      stmt_Framed v n b bs o d s ⟫ λ (s', v') (i, top, e, d', rs, k).
      rw e (returns (i, top, refl, d', InStmt.if_ r rs, BreaksInside.if_ k))
  stmt_Framed v n b bs o d (InStmt.if_else c s t) = expr_Resolved v n b bs o d c ⟫ λ c' r.
      stmt_Framed v n b bs o d s ⟫ λ (s', v') (i, top, e, d', rs, k). rw e (
        stmt_Framed v i top bs o d' t ⟫ λ (t', v'') (i', top', e', d'', rs', k').
        rw e' (returns (i', top', refl, d'', InStmt.if_else r rs rs', BreaksInside.if_else k k')))
  stmt_Framed v n b bs o d (InStmt.while_ c s) = expr_Resolved v n b bs o d c ⟫ λ c' r.
      stmt_Framed (record v { inside_while = suc v.inside_while }) n b bs
        (record { rts = o.rts; globals = o.globals; formals = o.formals; rest = o.rest }) d s
      ⟫ λ (s', v') (i, top, e, d', rs, k). rw e (
          rw (leave_while v i top bs v.inside_while refl)
            (returns (i, top, refl, d', InStmt.while_ r rs, BreaksInside.while_ k)))
  stmt_Framed v n b bs o d (InStmt.return_void {line}) =
      Ensures-error_if (is_none v.current_function) _
        λ h. returns (n, b, refl, d, InStmt.return_void, BreaksInside.return_)
  stmt_Framed v n b bs o d (InStmt.return_value {line} {e} s) =
      return_Resolved line e (with_top v n b bs).symtab (expr_Resolved v n b bs o d s)
      ⟫ λ e' (e'', p, r). Ensures-error_if (is_none v.current_function) _ λ h. returns (
        n,
        b,
        refl,
        d,
        subst (λ k. InStmt Resolved (return_stmt line k)) (sym p) (InStmt.return_value r),
        BreaksInside.return_,
      )
  stmt_Framed v n b bs o d (InStmt.break_ {line}) =
      Ensures-error_if (v.inside_while == 0) _
        λ h. returns (n, b, refl, d, InStmt.break_, BreaksInside.break_ (ground arith))
  stmt_Framed v n b bs o d (InStmt.block ss) =
      children_Framed v n [] (b ∷ bs)
        (record { rts = o.rts; globals = o.globals; formals = o.formals; rest = (d, o.rest) }) tt ss
      ⟫ λ (ss', v') (i, top, e, d', rs, k).
          rw e (returns (i, b, refl, d, InStmt.block rs, BreaksInside.block k))
  stmt_Framed v n b bs o d (InStmt.expr s) = expr_Resolved v n b bs o d s ⟫ λ _ r.
      returns (n, b, refl, d, InStmt.expr r, BreaksInside.expr)
  stmt_Framed v n b bs o d InStmt.null = returns (n, b, refl, d, InStmt.null, BreaksInside.null)
  stmt_Framed v n b bs o d (InStmt.var {line} {x} {a} {o = s}) = var_Framed v n b bs line x a s d

  pub children_Framed :
      (v : FunctionVisitor) (n : ℕ) (b : Map) (bs : List Map)
      → Outer v bs
      → AllDeclared b
      → {ss : Children} → InChildren Shaped ss
      → Ensures (BlockFramed v bs) (visit_children ss (with_top v n b bs))
  children_Framed v n b bs o d InChildren.nil =
      returns (n, b, refl, d, InChildren.nil, AllBreaksInside.nil)
  children_Framed v n b bs o d (InChildren.cons s ss) =
      stmt_Framed v n b bs o d s ⟫ λ (s', v') (i, top, e, d', rs, k). rw e (
        children_Framed v i top bs o d' ss ⟫ λ (ss', v'') (i', top', e', d'', rs', k').
        rw e' (returns (i', top', refl, d'', InChildren.cons rs rs', AllBreaksInside.cons k k')))

-- A visit of a shaped statement, with blocks whose symbols are declared, ends the process with an
-- error, or it changes the innermost block and the count of symbols made alone: the other scopes, the loops and the current function
-- are as before, the names of the statement are resolved and each `break` of it stands in a loop.
pub visit_stmt-Resolved :
    (v : FunctionVisitor) (n : ℕ) (b : Map) (bs : List Map) (s : Stmt)
    → Outer v bs
    → AllDeclared b
    → InStmt Shaped s
    → Ensures
        (λ (s', v').
          (n : ℕ) × (top : Map) × (v' ≡ with_top v n top bs)
          × AllDeclared top
          × InStmt Resolved s'
          × BreaksInside v.inside_while s')
        (visit_stmt s (with_top v n b bs))
visit_stmt-Resolved v n b bs s o d i = stmt_Framed v n b bs o d i
