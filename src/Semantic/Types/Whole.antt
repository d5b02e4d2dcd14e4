-- ===== src/Semantic/Types/Whole.antt =====
-- The type visitor on declarations and on the whole program.
use jmm_llvm.Semantic.Types.Statements.{children_complete}
use jmm_llvm.Prelude.{none, ◌↔◌, sym, ◌≡◌, some, [], ◌∷◌, refl, subst}
use jmm_llvm.Common.Ast.{Decl, Program}
use jmm_llvm.Common.Outcome.{Ensures-ok, ok, weaken, Ensures, returns, ◌⟫◌}
use jmm_llvm.Semantic.Rules.{ChildrenTyped}
use jmm_llvm.Semantic.Program.{Checked, DeclTyped, Every}
use jmm_llvm.Semantic.Types.{TypeVisitor, visit_decl, visit}
use jmm_llvm.Semantic.Types.Statements.{has_return_children, after, children_sound}

decl_sound : (v : TypeVisitor) {d : Decl} → Checked d → Ensures (λ _. DeclTyped d) (visit_decl d v)
unfolding visit_decl
decl_sound v Checked.gvar = returns DeclTyped.gvar
decl_sound v (Checked.func {body = body} {s = s} t r k) =
    children_sound s r (record v { current_function = some s }) refl ⟫ λ v' (ts, _).
    returns (DeclTyped.func (subst (λ ρ. ChildrenTyped ρ body) t ts))
decl_sound v (Checked.main {body = body} {s = s} t r k) =
    children_sound s r (record v { current_function = some s }) refl ⟫ λ v' (ts, _).
    returns (DeclTyped.main (subst (λ ρ. ChildrenTyped ρ body) t ts))

-- On a tree from the function visitor, the pass ends with an error, or each body is typed.
pub visit_sound :
    (ds : Program) (v : TypeVisitor)
    → Every Checked ds
    → Ensures (λ _. Every DeclTyped ds) (visit ds v)
unfolding visit
visit_sound [] v c = returns tt
visit_sound (d ∷ ds) v (c, cs) =
    decl_sound v c ⟫ λ v' t. weaken (λ _ ts. (t, ts)) (visit_sound ds v' cs)

decl_complete :
    {d : Decl} (v : TypeVisitor)
    → Checked d
    → DeclTyped d
    → (v' : TypeVisitor) × (visit_decl d v ≡ ok v')
unfolding visit_decl
decl_complete v Checked.gvar DeclTyped.gvar = (v, refl)
decl_complete v (Checked.func {body = body} {s = s} t r k) (DeclTyped.func ts) =
    let inside = record v { current_function = some s } in
    let typed = subst (λ ρ. ChildrenTyped ρ body) (sym t) ts in
    (
      record (after (has_return_children body) inside) { current_function = none },
      simp (children_complete s typed inside refl),
    )
decl_complete v (Checked.main {body = body} {s = s} t r k) (DeclTyped.main ts) =
    let inside = record v { current_function = some s } in
    let typed = subst (λ ρ. ChildrenTyped ρ body) (sym t) ts in
    (
      record (after (has_return_children body) inside) { current_function = none },
      simp (children_complete s typed inside refl),
    )

visit_complete :
    (ds : Program) (v : TypeVisitor)
    → Every Checked ds
    → Every DeclTyped ds
    → (v' : TypeVisitor) × (visit ds v ≡ ok v')
unfolding visit
visit_complete [] v c t = (v, refl)
visit_complete (d ∷ ds) v (c, cs) (t, ts) =
    let (v', e) = decl_complete v c t in
    let (v'', es) = visit_complete ds v' cs ts in (v'', simp (e, es))

-- On a tree from the function visitor, the type visitor accepts the program exactly when each body is
-- typed for the return type of its function.
pub visit-DeclTyped :
    (ds : Program) (v : TypeVisitor)
    → Every Checked ds
    → ((v' : TypeVisitor) × (visit ds v ≡ ok v')) ↔ Every DeclTyped ds
visit-DeclTyped ds v c = (λ (v', e). Ensures-ok (visit_sound ds v c) e, visit_complete ds v c)
