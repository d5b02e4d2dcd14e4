-- ===== src/Semantic/Functions/Names.antt =====
-- The function visitor on expressions: it decides name resolution, and hands the type visitor a tree
-- in which every symbol is set.
use jmm_llvm.Prelude.{Option, none, some, ◌≡◌, ◌↔◌, refl, Bytes, ℕ, not, arith}
use jmm_llvm.Common.Symbol.{Symbol, is_var}
use jmm_llvm.Common.Outcome.{weaken, ok, Ensures, returns, exits, ◌⟫◌, Ensures-ok, Ensures-error_if}
use jmm_llvm.Common.Ast.{Expr, Actuals}
use jmm_llvm.Symtab.{Scope, SymbolTable, query}
use jmm_llvm.Symtab.Lookup.{binding}
use jmm_llvm.Semantic.Rules.{IsVariable, IsCallable, Resolves, ResolvesAll}
use jmm_llvm.Semantic.Shape.{Shaped, AllShaped, Resolved, AllResolved, IsFunction}
use jmm_llvm.Semantic.Functions.{resolve_variable, resolve_function, visit_expr, visit_actuals}

resolve_variable_sound :
    (name : Bytes) (line : ℕ) (t : SymbolTable)
    → Ensures
        (λ s. (binding t name ≡ some s) × IsVariable s)
        (resolve_variable name line (query name t))
unfolding resolve_variable
resolve_variable_sound name line t = go (query name t) refl
  where
    go :
        (r : Option (Scope × Symbol))
        → query name t ≡ r
        → Ensures (λ s. (binding t name ≡ some s) × IsVariable s) (resolve_variable name line r)
    go none e = exits
    go (some (scope, s)) e =
        Ensures-error_if (not (is_var s)) _ λ h. returns (rw e refl, ground arith)

resolve_function_sound :
    (name : Bytes) (line : ℕ) (t : SymbolTable)
    → Ensures
        (λ s. (binding t name ≡ some s) × IsCallable s)
        (resolve_function name line (query name t))
unfolding resolve_function
resolve_function_sound name line t = go (query name t) refl
  where
    go :
        (r : Option (Scope × Symbol))
        → query name t ≡ r
        → Ensures (λ s. (binding t name ≡ some s) × IsCallable s) (resolve_function name line r)
    go none e = exits
    go (some (scope, s)) e = Ensures-error_if (is_var s) _ λ h.
        Ensures-error_if s.is_main _ λ k. returns (rw e refl, record { function = h; not_main = k })

module _ (t : SymbolTable) where
  mutual
    unfolding visit_expr

    pub expr_sound : {e : Expr} → Shaped e → Ensures (Resolves (binding t) e) (visit_expr e t)
    expr_sound (Shaped.id {line} {x}) =
        resolve_variable_sound x line t ⟫ λ s (b, v). returns (Resolves.id b v)
    expr_sound Shaped.lit = returns Resolves.lit
    expr_sound (Shaped.unary u s) = expr_sound s ⟫ λ _ r. returns (Resolves.unary r)
    expr_sound (Shaped.binary s s') =
        expr_sound s ⟫ λ _ r. expr_sound s' ⟫ λ _ r'. returns (Resolves.binary r r')
    expr_sound (Shaped.bitwise s s') =
        expr_sound s ⟫ λ _ r. expr_sound s' ⟫ λ _ r'. returns (Resolves.bitwise r r')
    expr_sound (Shaped.assign s s') =
        expr_sound s ⟫ λ _ r. expr_sound s' ⟫ λ _ r'. returns (Resolves.assign r r')
    expr_sound (Shaped.call {line} {f} ss) = actuals_sound ss ⟫ λ _ rs.
        resolve_function_sound f line t ⟫ λ s (b, c). returns (Resolves.call rs b c)

    actuals_sound :
        {es : Actuals} → AllShaped es → Ensures (ResolvesAll (binding t) es) (visit_actuals es t)
    actuals_sound AllShaped.nil = returns ResolvesAll.nil
    actuals_sound (AllShaped.cons s ss) =
        expr_sound s ⟫ λ _ r. actuals_sound ss ⟫ λ _ rs. returns (ResolvesAll.cons r rs)

resolve_variable_complete :
    (name : Bytes) (line : ℕ) (t : SymbolTable) (s : Symbol)
    → binding t name ≡ some s
    → IsVariable s
    → resolve_variable name line (query name t) ≡ ok s
unfolding resolve_variable
resolve_variable_complete name line t s b v = go (query name t) refl
  where
    go : (r : Option (Scope × Symbol)) → query name t ≡ r → resolve_variable name line r ≡ ok s
    go none e = ground arith
    go (some (scope, s')) e = ground arith

resolve_function_complete :
    (name : Bytes) (line : ℕ) (t : SymbolTable) (s : Symbol)
    → binding t name ≡ some s
    → IsCallable s
    → resolve_function name line (query name t) ≡ ok s
unfolding resolve_function
resolve_function_complete name line t s b c = go (query name t) refl
  where
    go : (r : Option (Scope × Symbol)) → query name t ≡ r → resolve_function name line r ≡ ok s
    go none e = ground arith
    go (some (scope, s')) e = ground arith

module _ (t : SymbolTable) where
  mutual
    unfolding visit_expr

    expr_complete : {e e' : Expr} → Resolves (binding t) e e' → visit_expr e t ≡ ok e'
    expr_complete (Resolves.id {line} {x} {s = s} b v) =
        simp (resolve_variable_complete x line t s b v)
    expr_complete Resolves.lit = refl
    expr_complete (Resolves.unary r) = simp (expr_complete r)
    expr_complete (Resolves.binary r r') = simp (expr_complete r, expr_complete r')
    expr_complete (Resolves.bitwise r r') = simp (expr_complete r, expr_complete r')
    expr_complete (Resolves.assign r r') = simp (expr_complete r, expr_complete r')
    expr_complete (Resolves.call {line} {f} {s = s} rs b c) =
        simp (actuals_complete rs, resolve_function_complete f line t s b c)

    actuals_complete :
        {es es' : Actuals} → ResolvesAll (binding t) es es' → visit_actuals es t ≡ ok es'
    actuals_complete ResolvesAll.nil = refl
    actuals_complete (ResolvesAll.cons r rs) = simp (expr_complete r, actuals_complete rs)

-- The visit of an expression from the parser does not fault, and it returns a tree exactly when that
-- tree is the expression with each name bound as the table says.
pub visit_expr-Resolves :
    (t : SymbolTable) (e e' : Expr)
    → Shaped e
    → (visit_expr e t ≡ ok e') ↔ Resolves (binding t) e e'
visit_expr-Resolves t e e' s = (Ensures-ok (expr_sound t s), expr_complete t)

-- A symbol that may be called has its parameters recorded.
abbrev pub IsDeclared : Symbol → Type 0
IsDeclared s = IsCallable s → IsFunction s

module _ {Γ : Bytes → Option Symbol}
    (declared : (x : Bytes) (s : Symbol) → Γ x ≡ some s → IsDeclared s) where
  mutual
    Resolves-Resolved : {e e' : Expr} → Shaped e → Resolves Γ e e' → Resolved e'
    Resolves-Resolved s (Resolves.id b v) = Resolved.id v
    Resolves-Resolved s Resolves.lit = Resolved.lit
    Resolves-Resolved (Shaped.unary u s) (Resolves.unary r) =
        Resolved.unary u (Resolves-Resolved s r)
    Resolves-Resolved (Shaped.binary s s') (Resolves.binary r r') =
        Resolved.binary (Resolves-Resolved s r) (Resolves-Resolved s' r')
    Resolves-Resolved (Shaped.bitwise s s') (Resolves.bitwise r r') =
        Resolved.bitwise (Resolves-Resolved s r) (Resolves-Resolved s' r')
    Resolves-Resolved (Shaped.assign s s') (Resolves.assign r r') =
        Resolved.assign (Resolves-Resolved s r) (Resolves-Resolved s' r')
    Resolves-Resolved (Shaped.call ss) (Resolves.call {f = f} {s = s} rs b c) =
        Resolved.call (ResolvesAll-AllResolved ss rs) (declared f s b c)

    ResolvesAll-AllResolved :
        {es es' : Actuals} → AllShaped es → ResolvesAll Γ es es' → AllResolved es'
    ResolvesAll-AllResolved ss ResolvesAll.nil = AllResolved.nil
    ResolvesAll-AllResolved (AllShaped.cons s ss) (ResolvesAll.cons r rs) =
        AllResolved.cons (Resolves-Resolved s r) (ResolvesAll-AllResolved ss rs)

-- In a table of declared symbols, what the visit returns is resolved.
pub visit_expr-Resolved :
    (t : SymbolTable)
    → ((x : Bytes) (s : Symbol) → binding t x ≡ some s → IsDeclared s)
    → {e : Expr} → Shaped e
    → Ensures Resolved (visit_expr e t)
visit_expr-Resolved t declared s = weaken (λ _. Resolves-Resolved declared s) (expr_sound t s)
