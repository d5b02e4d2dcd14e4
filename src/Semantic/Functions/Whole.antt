-- ===== src/Semantic/Functions/Whole.antt =====
-- The function visitor on declarations and on the whole program.
use mathlib.Core.Path.{ap₂}
use jmm_llvm.Prelude.{
  suc, ◌∙◌, sym, subst, false, Option, none, some, ℕ, List, [], ◌∷◌, ◌≡◌, refl, not, ◌+◌, arith,
}
use jmm_llvm.Common.Symbol.{Symbol, var_symbol}
use jmm_llvm.Common.Outcome.{
  redefined_main, no_main, Ensures, returns, exits, ◌⟫◌, Ensures-error_if,
}
use jmm_llvm.Common.Ast.{ParamDecl, Children, Decl, Program}
use jmm_llvm.Symtab.{
  Scope, Map, SymbolTable, insert, insert_map, query_scope, enter_block, exit_block, exit_func,
}
use jmm_llvm.Semantic.Shape.{Shaped, Resolved, InChildren}
use jmm_llvm.Semantic.Breaks.{AllBreaksInside}
use jmm_llvm.Semantic.Program.{Entered, Checked, Every, mains, is_main_decl, count_bool}
use jmm_llvm.Semantic.Functions.Declared.{
  AllBlocks, AllDeclared, insert_map-AllDeclared, var_symbol-IsDeclared,
}
use jmm_llvm.Semantic.Functions.Frame.{Outer, children_Framed}
use jmm_llvm.Semantic.Functions.{
  FunctionVisitor, visit_param, visit_params, visit_body, visit_decl, visit_decls, visit,
  check_parameter,
}

abbrev pub with_formals : SymbolTable → ℕ → Map → SymbolTable
with_formals t n m = record t { made = n; m_func = m }

pub check_parameter_ends :
    (p : ParamDecl) (o : Option Symbol) → Ensures (λ _. o ≡ none) (check_parameter p o)
check_parameter_ends p none = returns refl
check_parameter_ends p (some r) = exits

param_Framed :
    (p : ParamDecl) (t : SymbolTable)
    → AllDeclared t.m_func
    → Ensures
        (λ (p', t'). (n : ℕ) × (m : Map) × (t' ≡ with_formals t n m) × AllDeclared m)
        (visit_param p t)
unfolding visit_param insert
param_Framed p t g = check_parameter_ends p (query_scope Scope.func p.id t) ⟫ λ _ _. returns (
  suc t.made,
  (insert_map p.id (var_symbol p.type p.line t.made) t.m_func).0,
  refl,
  insert_map-AllDeclared p.id _ t.m_func (var_symbol-IsDeclared p.type p.line t.made) g,
)

params_Framed :
    (ps : List ParamDecl) (t : SymbolTable)
    → AllDeclared t.m_func
    → Ensures
        (λ (ps', t'). (n : ℕ) × (m : Map) × (t' ≡ with_formals t n m) × AllDeclared m)
        (visit_params ps t)
unfolding visit_params
params_Framed [] t g = returns (t.made, t.m_func, refl, g)
params_Framed (p ∷ ps) t g = param_Framed p t g ⟫ λ (p', t') (n, m, e, g'). rw e (
    params_Framed ps (with_formals t n m) g' ⟫ λ (ps', t'') (n', m', e', g'').
    returns (n', m', e', g''))

abbrev pub with_made : FunctionVisitor → ℕ → FunctionVisitor
with_made v n = record v { symtab = record v.symtab { made = n } }

-- A body is visited and its block left: the state is as before, but for the symbols made.
body_Framed :
    (v : FunctionVisitor) {body : Children}
    → Outer v v.symtab.m_blocks
    → InChildren Shaped body
    → Ensures
        (λ (body', v').
          (n : ℕ) × (v' ≡ with_made v n)
          × InChildren Resolved body'
          × AllBreaksInside v.inside_while body')
        (visit_body body v)
unfolding visit_body enter_block exit_block
body_Framed v o s =
    children_Framed v v.symtab.made [] v.symtab.m_blocks o tt s
    ⟫ λ (body', v') (n, top, e, d, r, k). rw e (returns (n, refl, r, k))

-- The visitor between two declarations: no blocks, no formals and no loop.
pub record Between (v : FunctionVisitor) : Type 0 where
  pub rts : AllDeclared v.symtab.m_rts
  pub globals : AllDeclared v.symtab.m_global
  pub formals : v.symtab.m_func ≡ []
  pub blocks : v.symtab.m_blocks ≡ []
  pub loops : v.inside_while ≡ 0

-- The flag `visited_main` counts the main functions, of which there is one at most.
abbrev Counts : ℕ → FunctionVisitor → FunctionVisitor → Type 0
Counts n v v' = count_bool v.visited_main + n ≡ count_bool v'.visited_main

abbrev DeclFramed : Decl → FunctionVisitor → Decl × FunctionVisitor → Type 0
DeclFramed d v (d', v') =
    Between v'
    × Checked d'
    × Counts (count_bool (is_main_decl d)) v v'
    × (is_main_decl d' ≡ is_main_decl d)

decl_Framed :
    (v : FunctionVisitor) {d : Decl}
    → Between v
    → Entered d
    → Ensures (DeclFramed d v) (visit_decl d v)
unfolding visit_decl exit_func
decl_Framed v b Entered.gvar = returns (b, Checked.gvar, omega arith, refl)
decl_Framed v b (Entered.func {ps = ps} {s = s} t i) =
    params_Framed ps v.symtab (subst AllDeclared (sym b.formals) tt) ⟫ λ (ps', t') (n, m, e, d).
    rw e (
      body_Framed (record v { symtab = with_formals v.symtab n m; current_function = some s })
        (record {
          rts = b.rts;
          globals = b.globals;
          formals = d;
          rest = subst AllBlocks (sym b.blocks) tt;
        })
        i
      ⟫ λ (body', v') (i, e', r, k). rw e' (
          returns (
            record {
              rts = b.rts;
              globals = b.globals;
              formals = refl;
              blocks = refl;
              loops = b.loops;
            },
            Checked.func t r (subst (λ n. AllBreaksInside n body') b.loops k),
            omega arith,
            refl,
          )))
decl_Framed v b (Entered.main {l} {s = s} t i) =
    Ensures-error_if v.visited_main (redefined_main l) λ h.
      body_Framed (record v { current_function = some s })
        (record {
          rts = b.rts;
          globals = b.globals;
          formals = subst AllDeclared (sym b.formals) tt;
          rest = subst AllBlocks (sym b.blocks) tt;
        })
        i
      ⟫ λ (body', v') (i, e', r, k). rw e' (
          returns (
            record {
              rts = b.rts;
              globals = b.globals;
              formals = b.formals;
              blocks = b.blocks;
              loops = b.loops;
            },
            Checked.main t r (subst (λ n. AllBreaksInside n body') b.loops k),
            simp h,
            refl,
          ))

abbrev DeclsFramed : Program → FunctionVisitor → Program × FunctionVisitor → Type 0
DeclsFramed ds v (ds', v') =
    Between v' × Every Checked ds' × Counts (mains ds) v v' × (mains ds' ≡ mains ds)

decls_Framed :
    (v : FunctionVisitor) (ds : Program)
    → Between v
    → Every Entered ds
    → Ensures (DeclsFramed ds v) (visit_decls ds v)
unfolding visit_decls
decls_Framed v [] b i = returns (b, tt, omega arith, refl)
decls_Framed v (d ∷ ds) b (i, is) = decl_Framed v b i ⟫ λ (d', v') (b', c, n, m).
    decls_Framed v' ds b' is ⟫ λ (ds', v'') (b'', cs, ns, ms).
    returns (b'', (c, cs), omega arith, ap₂ (λ k n. count_bool k + n) m ms)

-- On declarations that the globals' visitor has entered, in which no right-hand side is missing and unary
-- nodes hold unary operators, and from a visitor that stands outside every function, whose table has the
-- parameters of each function that can be called, and that has visited no main, the pass ends with an error or returns a tree whose names are resolved, whose breaks stand in
-- loops, and which has exactly one main.
pub visit-Checked :
    (v : FunctionVisitor) (ds : Program)
    → Between v
    → v.visited_main ≡ false
    → Every Entered ds
    → Ensures (λ (ds', v'). Every Checked ds' × (mains ds ≡ 1) × (mains ds' ≡ 1)) (visit ds v)
unfolding visit
visit-Checked v ds b h i = decls_Framed v ds b i ⟫ λ (ds', v') (b', cs, ns, ms).
    Ensures-error_if (not v'.visited_main) no_main
      λ k. let one : mains ds ≡ 1 = ground arith in returns (cs, one, ms ∙ one)
