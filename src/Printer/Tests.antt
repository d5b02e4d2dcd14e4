-- ===== src/Printer/Tests.antt =====
-- Runs of the printer.
use jmm_llvm.Prelude.{none, some, [], ◌∷◌, ◌++◌, codes, ◌≡◌, refl, if◌then◌else◌, ◌+◌, arith}
use jmm_llvm.Common.Print.{vtype_to_str}
use jmm_llvm.Common.Types.{VType}
use jmm_llvm.Common.Outcome.{ok, fault}
use jmm_llvm.Common.Symbol.{main_symbol, var_symbol}
use jmm_llvm.Common.Ast.{
  Program, gvar_decl, mfunc_decl, child, no_children, expr_stmt, assign_expr, id_expr, lit_expr,
  ival,
}
use jmm_llvm.Printer.{
  new_printer, newline, visit, visit_decls, visit_decl, visit_stmt, visit_children, visit_expr,
  print_symbol, show, digits, show_int32, literal_text, spaces, symbol_text,
}
use jmm_llvm.Frontend.{missing_rhs}
use jmm_llvm.Parser.Base.{stoul_int32}
use jmm_llvm.Printer.Outline.{render, decls_outline}
use jmm_llvm.Printer.Printed.{visit-Outlined}
use jmm_llvm.Printer.Numbers.{stoul_int32-literal_text}

-- int x; m() { x = -1; }, with the symbols of the global and of the main function set.
abbrev tree : Program
tree =
    gvar_decl 1 (codes "x") VType.int (some (var_symbol VType.int 1 7))
    ∷ mfunc_decl 2 (codes "m")
        (child
          (expr_stmt (assign_expr 3 (id_expr 3 (codes "x") none) (lit_expr 3 (ival 4294967295))))
          no_children)
        (some (main_symbol 2 8))
    ∷ []

printed :
    visit tree new_printer
    ≡ ok (record new_printer {
      cerr =
          codes
            "Program\n GVarDecl; Value: \"x\" Type: Int; Line: 1\n  Symbol; Type: Int; Declared at line 1\n"
          ++ (codes
                " MainFuncDecl; Value: \"m\"; Line: 2\n  Symbol; Main function; Declared at line 2\n"
              ++ (codes
                    "  Block;\n   ExprStmt;\n    AssignExpr (=); Line: 3\n     ID; Value: \"x\"; Line: 3\n"
                  ++ codes "     Literal; Value: '-1'; Type: Int; Line: 3\n"));
    })
unfolding visit visit_decls visit_decl visit_stmt visit_children visit_expr print_symbol show digits
    show_int32 literal_text spaces symbol_text vtype_to_str
printed = refl

visit-Outlined_example : visit tree new_printer ≡ (
    if missing_rhs tree
    then fault
    else ok (record new_printer {
      cerr = [] ++ (codes "Program" ++ (newline ++ render (0 + 1) (decls_outline tree)));
    }))
visit-Outlined_example = visit-Outlined tree new_printer

stoul_int32-literal_text_example : stoul_int32 (literal_text (ival 2147483647)) ≡ ok 2147483647
stoul_int32-literal_text_example = stoul_int32-literal_text 2147483647 (omega arith)
