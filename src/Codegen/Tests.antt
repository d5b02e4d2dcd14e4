-- ===== src/Codegen/Tests.antt =====
-- The code generator on small trees, with an LLVM that is kept in memory.
pub mod Machine
pub mod Lawful
use jmm_llvm.Codegen.Program.Generate.{apart, all_differ, all_differ-Distinct}
use jmm_llvm.Prelude.{
  ℕ, Bool, true, false, ◌==◌, Option, some, none, List, [], ◌∷◌, Bytes, bytes_eq, codes, ◌≡◌, refl,
  arith, if◌then◌else◌,
}
use jmm_llvm.Common.Types.{VType, Op}
use jmm_llvm.Common.Symbol.{Symbol, var_symbol, func_symbol}
use jmm_llvm.Common.Outcome.{Returns, ok, Ensures}
use jmm_llvm.Common.Ast.{
  Expr, Stmt, Children, ParamDecl, id_expr, lit_expr, binary_expr, assign_expr, func_call_expr,
  no_actuals, actual, ival, while_stmt, if_stmt, return_stmt, break_stmt, block_stmt, expr_stmt,
  var_decl, no_children, child,
}
use jmm_llvm.Semantic.Breaks.{BreaksInside, AllBreaksInside}
use jmm_llvm.Codegen.Globals
use jmm_llvm.Codegen.Program.{visit_root}
use jmm_llvm.Codegen.Program.Scope.{Bound, ScopedDecl, functions_of, globals_of}
use jmm_llvm.Codegen.Program.Whole.{visit_root-Generated}
use jmm_llvm.Codegen.Globals.Provided.{Declared, Provides, Extends, table_of, names, visit-Provides}
use jmm_llvm.Semantic.Program.{Every}
use jmm_llvm.Common.Ast.{Program, gvar_decl, func_decl, mfunc_decl}
use jmm_llvm.Common.Symbol.{main_symbol}
use jmm_llvm.Codegen.Laws.{Free, Distinct}
use jmm_llvm.Prelude.{◌≢◌, bytes_eq_iff}
use jmm_llvm.Common.Outcome.{Returns}
use jmm_llvm.Codegen.Runtime.{build_rts}
use jmm_llvm.Codegen.Runtime.Built.{Fresh, taken, runtime, build_rts-Fresh}
use jmm_llvm.Codegen.Program.{generate}
use jmm_llvm.Codegen.Program.Generate.{member, generate-Generated}
use jmm_llvm.Prelude.{◌++◌, sym}
use jmm_llvm.Codegen.State.{Codegen, frame}
use jmm_llvm.Codegen.Laws.{Within}
use jmm_llvm.Codegen.Scoped.{ScopedExpr, AllScoped, Scoped, ScopedChildren, with_address}
use jmm_llvm.Codegen.Ready.{Ready}
use jmm_llvm.Codegen.Statements.{codegen_stmt}
use jmm_llvm.Codegen.Statements.Generated.{codegen_stmt-Ready}
use jmm_llvm.Codegen.Functions.{codegen_main, codegen_func}
use jmm_llvm.Codegen.Functions.Generated.{
  codegen_main-Generated, Offers, Matched, codegen_func-Terminated,
}
use jmm_llvm.Codegen.Tests.Machine.{Func, machine, empty_machine}
use jmm_llvm.Codegen.Tests.Lawful.{builder_laws, block_laws, module_laws}

abbrev known : Bytes → Bool
known name = bytes_eq (codes "f") name

abbrev a_symbol : Symbol
a_symbol = var_symbol VType.int 2 3

abbrev y_symbol : Symbol
y_symbol = var_symbol VType.int 3 4

abbrev a : Expr
a = id_expr 3 (codes "a") (some a_symbol)

-- while (a < 10) { int y; y = f(a); if (y == 0 && a == y) break; }
abbrev loop : Stmt
loop = while_stmt 3 (binary_expr 3 Op.lt a (lit_expr 3 (ival 10))) (
    block_stmt (
      child (var_decl 3 (codes "y") VType.int (some y_symbol)) (
        child
          (expr_stmt (
            assign_expr 4 (id_expr 4 (codes "y") (some y_symbol)) (
              func_call_expr 4 (codes "f") (actual a no_actuals)
                (some (func_symbol VType.int (VType.int ∷ []) 1 2)))))
          (child
            (if_stmt 5
              (binary_expr 5 Op.land
                (binary_expr 5 Op.eq (id_expr 5 (codes "y") (some y_symbol)) (lit_expr 5 (ival 0)))
                (binary_expr 5 Op.eq a (id_expr 5 (codes "y") (some y_symbol))))
              (break_stmt 5))
            no_children))))

abbrev live : ℕ → Bool
live = with_address 3 (λ _. false)

loop-Scoped :
    (functions : Bytes → Bool) (set : ℕ → Bool)
    → functions (codes "f") ≡ true
    → set 3 ≡ true
    → Scoped functions set loop (with_address 4 set)
loop-Scoped functions set h k = Scoped.while_ (ScopedExpr.binary (ScopedExpr.id k) ScopedExpr.lit) (
    Scoped.block (
      ScopedChildren.cons (Scoped.var (cc)) (
        ScopedChildren.cons
          (Scoped.expr (
            ScopedExpr.assign y_symbol refl refl
              (ScopedExpr.call h (AllScoped.cons (ScopedExpr.id k) AllScoped.nil))))
          (ScopedChildren.cons
            (Scoped.if_
              (ScopedExpr.binary (ScopedExpr.binary (ScopedExpr.id refl) ScopedExpr.lit)
                (ScopedExpr.binary (ScopedExpr.id k) (ScopedExpr.id refl)))
              Scoped.break_)
            ScopedChildren.nil))))

known_f : known (codes "f") ≡ true
unfolding bytes_eq
known_f = refl

loop-BreaksInside : BreaksInside 0 loop
loop-BreaksInside = BreaksInside.while_ (
    BreaksInside.block (
      AllBreaksInside.cons BreaksInside.var (
        AllBreaksInside.cons BreaksInside.expr (
          AllBreaksInside.cons (BreaksInside.if_ (BreaksInside.break_ (omega arith)))
            AllBreaksInside.nil))))

abbrev f_func : Func
f_func = record { id = 6; arguments = 7 ∷ []; is_void = false }

-- In the entry block of `f`, when its parameter has a slot.
abbrev inside : Codegen machine
inside = record {
  state = record empty_machine {
    functions = (codes "f", f_func) ∷ [];
    owners = (1, some f_func) ∷ [];
    at = some 1;
  };
  values = λ n. if n == 3 then some 8 else none;
  while_context = [];
  main_func_id = [];
  logger = record { warnings = 0 };
}

abbrev table : Bytes → Option Func
table name = if known name then some f_func else none

covers : (name : Bytes) → known name ≡ true → (g : Func) × (table name ≡ some g)
covers name h = (f_func, rw h refl)

values-live : (n : ℕ) → live n ≡ true → (v : ℕ) × (inside.values n ≡ some v)
values-live n h = (8, ground arith)

inside-Ready : Ready machine table f_func live inside
inside-Ready = record {
  block = 1;
  here = refl;
  inside = refl;
  functions = λ _ _ e. e;
  variables = values-live;
}

codegen_stmt-Ready_example :
    (c' : Codegen machine) × (codegen_stmt machine loop inside ≡ ok c')
    × Ready machine table f_func (with_address 4 live) c'
    × (c'.while_context ≡ [])
    × (c'.main_func_id ≡ [])
codegen_stmt-Ready_example =
    codegen_stmt-Ready machine builder_laws known table covers f_func live (with_address 4 live)
      loop inside (loop-Scoped known live known_f refl) loop-BreaksInside inside-Ready

abbrev params : List ParamDecl
params = record { line = 2; id = codes "a"; type = VType.int; symbol = some a_symbol } ∷ []

abbrev nothing : ℕ → Bool
nothing n = false

found : machine.get_function (codes "f") inside.state ≡ some f_func
unfolding bytes_eq
found = refl

codegen_func-Terminated_example :
    Ensures
      (λ c'.
        Offers machine table (with_address 4 live) c'
        × (frame machine c' ≡ frame machine inside)
        × ((b : ℕ)
            → Within b (machine.blocks f_func c'.state)
            → machine.terminated b c'.state ≡ true))
      (codegen_func machine 2 (codes "f") params (child loop no_children) inside)
codegen_func-Terminated_example =
    codegen_func-Terminated machine builder_laws known table covers block_laws f_func 2 (codes "f")
      params (child loop no_children) nothing live (with_address 4 live) inside found
      (record { functions = λ _ _ e. e; variables = λ n h. (8, ground arith) }) refl
      (Matched.cons a_symbol refl Matched.nil)
      (ScopedChildren.cons (loop-Scoped known live known_f refl) ScopedChildren.nil)
      (AllBreaksInside.cons loop-BreaksInside AllBreaksInside.nil)

codegen_main-Generated_example :
    Returns
      (λ c'. Offers machine table nothing c' × (frame machine c' ≡ ([], codes "f")))
      (codegen_main machine 2
        (codes "f")
        (child (expr_stmt (lit_expr 3 (ival 1))) no_children)
        inside)
codegen_main-Generated_example =
    codegen_main-Generated machine builder_laws known table covers f_func 2 (codes "f")
      (child (expr_stmt (lit_expr 3 (ival 1))) no_children) nothing nothing inside found
      (record { functions = λ _ _ e. e; variables = λ n h. (8, ground arith) }) refl
      (ScopedChildren.cons (Scoped.expr ScopedExpr.lit) ScopedChildren.nil)
      (AllBreaksInside.cons BreaksInside.expr AllBreaksInside.nil)

abbrev x_symbol : Symbol
x_symbol = var_symbol VType.int 1 2

abbrev f_symbol : Symbol
f_symbol = func_symbol VType.int (VType.int ∷ []) 2 1

-- x = f(x)
abbrev main_body : Children
main_body =
    child
      (expr_stmt (
        assign_expr 9 (id_expr 9 (codes "x") (some x_symbol)) (
          func_call_expr 9 (codes "f") (actual (id_expr 9 (codes "x") (some x_symbol)) no_actuals)
            (some f_symbol))))
      no_children

-- A global variable, a function with a loop, and the main function.
abbrev sample : Program
sample =
    gvar_decl 1 (codes "x") VType.int (some x_symbol)
    ∷ func_decl 2 (codes "f") VType.int params (child loop no_children) (some f_symbol)
    ∷ mfunc_decl 8 (codes "m") main_body (some (main_symbol 8 5))
    ∷ []

abbrev none_known : Bytes → Bool
none_known name = false

abbrev start : Codegen machine
start = record {
  state = empty_machine;
  values = λ _. none;
  while_context = [];
  main_func_id = [];
  logger = record { warnings = 0 };
}

sample_differ : all_differ (names sample) ≡ true
unfolding bytes_eq
sample_differ = refl

sample-Distinct : Distinct (names sample)
sample-Distinct = all_differ-Distinct (names sample) sample_differ

sample_spelled : member (names sample) [] ≡ false
unfolding bytes_eq
sample_spelled = refl

-- In an empty module each name that is not empty is free.
free :
    (xs : List Bytes)
    → member xs [] ≡ false
    → (x : Bytes) → Within x xs
    → Free machine x empty_machine
free xs e x w = record { spelled = λ p. apart [] xs e x w (sym p); unused = refl }

sample-Scoped :
    (rts : Bytes → Bool) → Every (ScopedDecl (functions_of rts sample) (globals_of sample)) sample
unfolding bytes_eq
sample-Scoped rts = (
  ScopedDecl.gvar,
  (
    ScopedDecl.func (Bound.cons a_symbol refl Bound.nil)
        (ScopedChildren.cons
          (loop-Scoped (functions_of rts sample) (with_address 3 (globals_of sample)) refl refl)
          ScopedChildren.nil)
        (AllBreaksInside.cons loop-BreaksInside AllBreaksInside.nil),
    (
      ScopedDecl.main
          (ScopedChildren.cons
            (Scoped.expr (
              ScopedExpr.assign x_symbol refl refl
                (ScopedExpr.call refl (AllScoped.cons (ScopedExpr.id refl) AllScoped.nil))))
            ScopedChildren.nil)
          (AllBreaksInside.cons BreaksInside.expr AllBreaksInside.nil),
      tt,
    ),
  ),
)

visit_root-Generated_example :
    Ensures
      (λ c'.
        (c'.while_context ≡ [])
        × ((n : ℕ) → globals_of sample n ≡ true → (v : ℕ) × (c'.values n ≡ some v)))
      (visit_root machine sample start)
visit_root-Generated_example =
    visit_root-Generated machine builder_laws block_laws module_laws none_known sample start
      (λ name h. (f_func, ground arith)) refl
      (Declared.gvar (cc), (Declared.func (VType.int ∷ []) refl refl, (Declared.main, tt)))
      sample-Distinct (free (names sample) sample_spelled) (sample-Scoped none_known) refl

visit-Provides_example :
    Returns
      (λ c'.
        Extends machine start c' × Every (Provides machine (table_of machine c') c'.values) sample)
      (Globals.visit machine sample start)
visit-Provides_example =
    visit-Provides machine module_laws sample start
      (Declared.gvar (cc), (Declared.func (VType.int ∷ []) refl refl, (Declared.main, tt)))
      sample-Distinct (free (names sample) sample_spelled)

all_names_differ : all_differ (taken ++ names sample) ≡ true
unfolding bytes_eq
all_names_differ = refl

all_spelled : member (taken ++ names sample) [] ≡ false
unfolding bytes_eq
all_spelled = refl

generate-Generated_example :
    Ensures
      (λ c.
        (c.while_context ≡ [])
        × ((n : ℕ) → globals_of sample n ≡ true → (v : ℕ) × (c.values n ≡ some v)))
      (generate machine sample empty_machine (record { warnings = 0 }))
generate-Generated_example =
    generate-Generated machine builder_laws block_laws module_laws sample empty_machine
      (record { warnings = 0 }) (all_differ-Distinct (taken ++ names sample) all_names_differ)
      (free (taken ++ names sample) all_spelled)
      (Declared.gvar (cc), (Declared.func (VType.int ∷ []) refl refl, (Declared.main, tt)))
      (sample-Scoped (member runtime)) refl

taken_differ : all_differ (taken ++ []) ≡ true
unfolding bytes_eq
taken_differ = refl

taken_spelled : member (taken ++ []) [] ≡ false
unfolding bytes_eq
taken_spelled = refl

build_rts-Fresh_example : Returns (Fresh machine runtime []) (build_rts machine start)
build_rts-Fresh_example = build_rts-Fresh machine module_laws [] start (record {
  functions = λ x w. elim w [ ];
  free = free (taken ++ []) taken_spelled;
  distinct = all_differ-Distinct (taken ++ []) taken_differ;
  empty = refl;
})
