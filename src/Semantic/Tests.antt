-- ===== src/Semantic/Tests.antt =====
-- Small programs for the analyzer's theorems.
use jmm_llvm.Prelude.{ℕ, false, none, some, List, [], ◌∷◌, Option, codes, arith, ◌≡◌, ◌↔◌, refl}
use jmm_llvm.Common.Types.{VType, Op}
use jmm_llvm.Common.Symbol.{Symbol, var_symbol, func_symbol, main_symbol}
use jmm_llvm.Common.Outcome.{ok, Ensures, ◌>>=◌, Logger}
use jmm_llvm.Common.Ast.{
  Expr, Stmt, Children, ParamDecl, Program, id_expr, lit_expr, binary_expr, assign_expr,
  func_call_expr, no_actuals, actual, ival, while_stmt, return_stmt, break_stmt, block_stmt,
  expr_stmt, var_decl, no_children, child, gvar_decl, func_decl, mfunc_decl,
}
use jmm_llvm.Symtab.{Map, SymbolTable, new_table}
use jmm_llvm.Symtab.Lookup.{binding}
use jmm_llvm.Semantic.Rules.{HasType, StmtTyped, Resolves}
use jmm_llvm.Semantic.Breaks.{BreaksInside, AllBreaksInside}
use jmm_llvm.Semantic.Shape.{Shaped, AllShaped, Resolved, AllResolved, InStmt, InChildren}
use jmm_llvm.Semantic.Program.{ShapedDecl, Entered, Checked, DeclTyped, Every, mains}
use jmm_llvm.Semantic.Functions.Names.{visit_expr-Resolves}
use jmm_llvm.Semantic.Functions.Declared.{
  AllDeclared, func_symbol-IsDeclared, var_symbol-IsDeclared,
}
use jmm_llvm.Semantic.Functions.Frame.{with_top, visit_stmt-Resolved}
use jmm_llvm.Semantic.Functions.Whole.{visit-Checked}
use jmm_llvm.Semantic.Globals.Frame.{with_globals}
use jmm_llvm.Semantic.Globals.Recorded.{Kept, AllRecorded, visit-Recorded}
use jmm_llvm.Semantic.Types.Statements.{visit_expr-HasType, visit_stmt-StmtTyped}
use jmm_llvm.Semantic.Types.Whole.{visit-DeclTyped}
use jmm_llvm.Semantic.Analyzer.{analyzer, analyze}
use jmm_llvm.Semantic.Analyzer.Sound.{Analyzed, analyze-Analyzed}
use jmm_llvm.Semantic.Globals
use jmm_llvm.Semantic.Functions.{FunctionVisitor}
use jmm_llvm.Semantic.Functions
use jmm_llvm.Semantic.Types.{TypeVisitor}
use jmm_llvm.Semantic.Types

-- while (a < 10) { a = a + 1; break; }, with the symbol of `a`
abbrev loop : Option Symbol → Stmt
loop o = while_stmt 3 (binary_expr 3 Op.lt (id_expr 3 (codes "a") o) (lit_expr 3 (ival 10))) (
    block_stmt (
      child
        (expr_stmt (
          assign_expr 4 (id_expr 4 (codes "a") o)
            (binary_expr 4 Op.add (id_expr 4 (codes "a") o) (lit_expr 4 (ival 1)))))
        (child (break_stmt 5) no_children)))

loop-Shaped : InStmt Shaped (loop none)
loop-Shaped = InStmt.while_ (Shaped.binary Shaped.id Shaped.lit) (
    InStmt.block (
      InChildren.cons (InStmt.expr (Shaped.assign Shaped.id (Shaped.binary Shaped.id Shaped.lit)))
        (InChildren.cons InStmt.break_ InChildren.nil)))

abbrev a_symbol : Symbol
a_symbol = var_symbol VType.int 2 9

loop-Resolved : InStmt Resolved (loop (some a_symbol))
loop-Resolved = InStmt.while_ (Resolved.binary (Resolved.id refl) Resolved.lit) (
    InStmt.block (
      InChildren.cons
        (InStmt.expr
          (Resolved.assign (Resolved.id refl) (Resolved.binary (Resolved.id refl) Resolved.lit)))
        (InChildren.cons InStmt.break_ InChildren.nil)))

abbrev f_body : Option Symbol → Children
f_body o = child (loop o) (child (return_stmt 6 (some (id_expr 6 (codes "a") o))) no_children)

f_body-Shaped : InChildren Shaped (f_body none)
f_body-Shaped =
    InChildren.cons loop-Shaped (InChildren.cons (InStmt.return_value Shaped.id) InChildren.nil)

f_body-Resolved : InChildren Resolved (f_body (some a_symbol))
f_body-Resolved =
    InChildren.cons loop-Resolved
      (InChildren.cons (InStmt.return_value (Resolved.id refl)) InChildren.nil)

abbrev f_symbol : Symbol
f_symbol = func_symbol VType.int (VType.int ∷ []) 2 7

-- y = f(x)
abbrev call : Option Symbol → Option Symbol → Option Symbol → Expr
call x y f =
    assign_expr 10 (id_expr 10 (codes "y") y)
      (func_call_expr 10 (codes "f") (actual (id_expr 10 (codes "x") x) no_actuals) f)

call-Shaped : Shaped (call none none none)
call-Shaped = Shaped.assign Shaped.id (Shaped.call (AllShaped.cons Shaped.id AllShaped.nil))

abbrev int_at : ℕ → Option Symbol
int_at line = some (var_symbol VType.int line line)

call-Resolved : Resolved (call (int_at 1) (int_at 9) (some f_symbol))
call-Resolved = Resolved.assign (Resolved.id refl) (
    Resolved.call (AllResolved.cons (Resolved.id refl) AllResolved.nil)
      (record { function = refl; params = VType.int ∷ []; recorded = refl }))

abbrev main_body : Children
main_body =
    child (var_decl 9 (codes "y") VType.int none)
      (child (expr_stmt (call none none none)) no_children)

main_body-Shaped : InChildren Shaped main_body
main_body-Shaped =
    InChildren.cons InStmt.var (InChildren.cons (InStmt.expr call-Shaped) InChildren.nil)

abbrev params : List ParamDecl
params = record { line = 2; id = codes "a"; type = VType.int; symbol = none } ∷ []

-- A global, a function with a loop, and the main function that calls it.
abbrev sample : Option Symbol → Option Symbol → Program
sample f main =
    gvar_decl 1 (codes "x") VType.int none
    ∷ func_decl 2 (codes "f") VType.int params (f_body none) f
    ∷ mfunc_decl 8 (codes "main") main_body main
    ∷ []

sample-Shaped : Every ShapedDecl (sample none none)
sample-Shaped =
    (ShapedDecl.gvar, (ShapedDecl.func f_body-Shaped, (ShapedDecl.main main_body-Shaped, tt)))

sample-Entered : Every Entered (sample (some f_symbol) (some (main_symbol 8 8)))
sample-Entered =
    (Entered.gvar, (Entered.func refl f_body-Shaped, (Entered.main refl main_body-Shaped, tt)))

abbrev no_warning : Logger
no_warning = record { warnings = 0 }

analyze-Analyzed_example :
    Ensures Analyzed (analyzer no_warning >>= λ t. analyze (sample none none) t)
analyze-Analyzed_example = analyze-Analyzed no_warning (sample none none) sample-Shaped

abbrev globals : Map
globals = (codes "f", f_symbol) ∷ (codes "x", var_symbol VType.int 1 6) ∷ []

globals-AllDeclared : AllDeclared globals
globals-AllDeclared = (func_symbol-IsDeclared _ _ _ _, (var_symbol-IsDeclared _ _ _, tt))

-- Behind the globals' visitor, and inside the body of `f`.
abbrev table : Map → SymbolTable
table formals = record {
  made = 10;
  logger = no_warning;
  m_rts = [];
  m_global = globals;
  m_func = formals;
  m_blocks = [];
}

abbrev formals : Map
formals = (codes "a", a_symbol) ∷ []

abbrev inside : FunctionVisitor
inside = record {
  symtab = table formals;
  inside_while = 0;
  visited_main = false;
  current_function = some f_symbol;
}

visit_stmt-Resolved_example :
    Ensures
      (λ (s', v').
        (n : ℕ) × (top : Map) × (v' ≡ with_top inside n top [])
        × AllDeclared top
        × InStmt Resolved s'
        × BreaksInside inside.inside_while s')
      (Functions.visit_stmt (loop none) (with_top inside 10 [] []))
visit_stmt-Resolved_example =
    visit_stmt-Resolved inside 10 [] [] (loop none)
      (record {
        rts = tt;
        globals = globals-AllDeclared;
        formals = (var_symbol-IsDeclared _ _ _, tt);
        rest = tt;
      })
      tt loop-Shaped

visit_expr-Resolves_example :
    (Functions.visit_expr
        (binary_expr 3 Op.lt (id_expr 3 (codes "a") none) (lit_expr 3 (ival 10)))
        (table formals)
      ≡ ok (binary_expr 3 Op.lt (id_expr 3 (codes "a") (some a_symbol)) (lit_expr 3 (ival 10))))
    ↔ Resolves
        (binding (table formals))
        (binary_expr 3 Op.lt (id_expr 3 (codes "a") none) (lit_expr 3 (ival 10)))
        (binary_expr 3 Op.lt (id_expr 3 (codes "a") (some a_symbol)) (lit_expr 3 (ival 10)))
visit_expr-Resolves_example =
    visit_expr-Resolves (table formals) _ _ (Shaped.binary Shaped.id Shaped.lit)

visit_expr-HasType_example :
    (Types.visit_expr (call (int_at 1) (int_at 9) (some f_symbol)) ≡ ok VType.int)
    ↔ HasType (call (int_at 1) (int_at 9) (some f_symbol)) VType.int
visit_expr-HasType_example =
    visit_expr-HasType (call (int_at 1) (int_at 9) (some f_symbol)) VType.int call-Resolved

visit_stmt-StmtTyped_example :
    ((v' : TypeVisitor) × (Types.visit_stmt
          (loop (some a_symbol))
          (record { current_function = some f_symbol; return_visited = false })
        ≡ ok v'))
    ↔ StmtTyped VType.int (loop (some a_symbol))
visit_stmt-StmtTyped_example =
    visit_stmt-StmtTyped f_symbol (loop (some a_symbol))
      (record { current_function = some f_symbol; return_visited = false }) loop-Resolved refl

visit-Recorded_example :
    Ensures
      (λ (ds', t').
        (n : ℕ) × (m : Map) × (t' ≡ with_globals (new_table no_warning) n m)
        × Kept [] m
        × AllRecorded m (sample none none) ds')
      (Globals.visit (sample none none) (new_table no_warning))
visit-Recorded_example = visit-Recorded (sample none none) (new_table no_warning)

visit-Checked_example :
    Ensures
      (λ (ds', v').
        Every Checked ds'
        × (mains (sample (some f_symbol) (some (main_symbol 8 8))) ≡ 1)
        × (mains ds' ≡ 1))
      (Functions.visit
        (sample (some f_symbol) (some (main_symbol 8 8)))
        (Functions.new_visitor (table [])))
visit-Checked_example =
    visit-Checked (Functions.new_visitor (table []))
      (sample (some f_symbol) (some (main_symbol 8 8)))
      (record {
        rts = tt;
        globals = globals-AllDeclared;
        formals = refl;
        blocks = refl;
        loops = refl;
      })
      refl sample-Entered

-- The function alone, as the function visitor leaves it.
abbrev checked : Program
checked = func_decl 2 (codes "f") VType.int params (f_body (some a_symbol)) (some f_symbol) ∷ []

checked-Checked : Every Checked checked
checked-Checked = (
  Checked.func refl f_body-Resolved (
      AllBreaksInside.cons
        (BreaksInside.while_ (
          BreaksInside.block (
            AllBreaksInside.cons BreaksInside.expr
              (AllBreaksInside.cons (BreaksInside.break_ (omega arith)) AllBreaksInside.nil))))
        (AllBreaksInside.cons BreaksInside.return_ AllBreaksInside.nil)),
  tt,
)

visit-DeclTyped_example :
    ((v' : TypeVisitor) × (Types.visit checked Types.new_visitor ≡ ok v')) ↔ Every DeclTyped checked
visit-DeclTyped_example = visit-DeclTyped checked Types.new_visitor checked-Checked
