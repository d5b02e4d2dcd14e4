-- ===== src/Printer/Printed.antt =====
-- `ASTPrinter` prints the outline: the visits of common/ast_printer.cpp, one by one.
use jmm_llvm.Prelude.{
  ℕ, ◌+◌, ◌-◌, Bool, true, false, Option, none, some, List, [], ◌∷◌, ◌++◌, Bytes, codes, ◌≡◌, refl,
  ◌||◌, if◌then◌else◌, append-nil, append_assoc, arith,
}
use jmm_llvm.Common.Outcome.{Outcome, ok, fault}
use jmm_llvm.Common.Outcome
use jmm_llvm.Common.Symbol.{Symbol}
use jmm_llvm.Common.Ast.{
  Expr, Actuals, id_expr, lit_expr, unary_expr, binary_expr, bitwise_expr, assign_expr, assign_null,
  func_call_expr, no_actuals, actual, Stmt, Children, if_stmt, if_else_stmt, while_stmt,
  return_stmt, break_stmt, block_stmt, expr_stmt, null_stmt, var_decl, no_children, child,
  ParamDecl, Decl, gvar_decl, func_decl, mfunc_decl, Program,
}
use jmm_llvm.Frontend.{missing_inside, any_missing, missing, missing_in, missing_body, missing_rhs}
use jmm_llvm.Printer.{
  back, AstPrinter, Visit, ◌▸◌, skip, newline, print_symbol, plain, inside, visit_expr,
  visit_actuals, visit_stmt, visit_children, visit_params, visit_decl, visit_decls, visit,
}
use jmm_llvm.Printer.Outline.{
  Forest, nothing, entry, ◌beside◌, leaf, alone, render, symbol_outline, expr_outline,
  actuals_outline, stmt_outline, children_outline, params_outline, decl_outline, decls_outline,
}

render-beside : (d : ℕ) (f g : Forest) → render d (f beside g) ≡ render d f ++ render d g
unfolding render ◌beside◌
render-beside d nothing g = refl
render-beside d (entry text inner rest) g = simp (append_assoc, render-beside d rest g)

-- The visit reads a null pointer if `broken`, or else writes the rendered forest and leaves the
-- indentation as it was.
pub record Prints (broken : Bool) (f : Forest) (v : Visit) : Type 0 where
  pub prints :
      (p : AstPrinter)
      → v p ≡ (if broken then fault else ok (record p { cerr = p.cerr ++ render p.m_indent f }))

skip-Prints : Prints false nothing skip
unfolding render
skip-Prints = record { prints = λ p. simp (append-nil) }

then-Prints :
    {b c : Bool} {f g : Forest} {v w : Visit}
    → Prints b f v
    → Prints c g w
    → Prints (b || c) (f beside g) (v ▸ w)
then-Prints {b = true} h k = record { prints = λ p. rw (h.prints p) refl }
then-Prints {b = false} {c = true} h k = record { prints = λ p. rw (h.prints p, k.prints _) refl }
then-Prints {b = false} {c = false} {f} {g} h k = record {
  prints = λ p. rw (h.prints p, k.prints _) (simp (append_assoc, render-beside p.m_indent f g));
}

back_deeper : (n : ℕ) → n + 1 - 1 ≡ n
back_deeper n = omega arith

-- A line, and what is printed below it.
inside-Prints :
    {b : Bool} {text : Bytes} {f : Forest} {v : Visit}
    → Prints b f v
    → Prints b (alone text f) (plain text ▸ inside v)
unfolding render
inside-Prints {b = true} h = record { prints = λ p. rw (h.prints _) refl }
inside-Prints {b = false} h = record {
  prints = λ p. rw (h.prints _) (simp (append_assoc, append-nil, back_deeper p.m_indent));
}

line-Prints : {text : Bytes} → Prints false (leaf text) (plain text)
unfolding render
line-Prints = record { prints = λ p. simp (append_assoc, append-nil) }

symbol-Prints : (s : Option Symbol) → Prints false (symbol_outline s) (print_symbol s)
unfolding symbol_outline print_symbol render
symbol-Prints none = skip-Prints
symbol-Prints (some s) = record { prints = λ p. simp (append_assoc, append-nil) }

null-Prints : {b : Bool} {f g : Forest} {v : Visit} → Prints b f v → Prints true g (v ▸ λ p. fault)
null-Prints {b = true} h = record { prints = λ p. rw (h.prints p) refl }
null-Prints {b = false} h = record { prints = λ p. rw (h.prints p) refl }

mutual
  unfolding visit_expr expr_outline missing

  expr-Prints : (e : Expr) → Prints (missing e) (expr_outline e) (visit_expr e)
  expr-Prints (id_expr line x s) = inside-Prints (symbol-Prints s)
  expr-Prints (lit_expr line l) = inside-Prints (symbol-Prints none)
  expr-Prints (unary_expr line op e) = inside-Prints (expr-Prints e)
  expr-Prints (binary_expr line op l r) =
      inside-Prints (then-Prints (expr-Prints l) (expr-Prints r))
  expr-Prints (bitwise_expr line op l r) =
      inside-Prints (then-Prints (expr-Prints l) (expr-Prints r))
  expr-Prints (assign_expr line l r) = inside-Prints (then-Prints (expr-Prints l) (expr-Prints r))
  expr-Prints (assign_null line l) = inside-Prints (null-Prints (expr-Prints l))
  expr-Prints (func_call_expr line f es s) =
      inside-Prints (then-Prints (symbol-Prints s) (inside-Prints (actuals-Prints es)))

  actuals-Prints : (es : Actuals) → Prints (any_missing es) (actuals_outline es) (visit_actuals es)
  actuals-Prints no_actuals = skip-Prints
  actuals-Prints (actual e es) = then-Prints (expr-Prints e) (actuals-Prints es)

mutual
  unfolding visit_stmt stmt_outline missing_in

  stmt-Prints : (s : Stmt) → Prints (missing_in s) (stmt_outline s) (visit_stmt s)
  stmt-Prints (if_stmt line c s) = inside-Prints (then-Prints (expr-Prints c) (stmt-Prints s))
  stmt-Prints (if_else_stmt line c s t) =
      inside-Prints (then-Prints (expr-Prints c) (then-Prints (stmt-Prints s) (stmt-Prints t)))
  stmt-Prints (while_stmt line c s) = inside-Prints (then-Prints (expr-Prints c) (stmt-Prints s))
  stmt-Prints (return_stmt line none) = inside-Prints skip-Prints
  stmt-Prints (return_stmt line (some e)) = inside-Prints (expr-Prints e)
  stmt-Prints (break_stmt line) = line-Prints
  stmt-Prints (block_stmt body) = inside-Prints (children-Prints body)
  stmt-Prints (expr_stmt e) = inside-Prints (expr-Prints e)
  stmt-Prints (null_stmt line) = line-Prints
  stmt-Prints (var_decl line x a s) = inside-Prints (symbol-Prints s)

  children-Prints :
      (ss : Children) → Prints (missing_inside ss) (children_outline ss) (visit_children ss)
  children-Prints no_children = skip-Prints
  children-Prints (child s ss) = then-Prints (stmt-Prints s) (children-Prints ss)

params-Prints : (ps : List ParamDecl) → Prints false (params_outline ps) (visit_params ps)
unfolding visit_params params_outline ◌beside◌
params-Prints [] = skip-Prints
params-Prints (p ∷ ps) = then-Prints (inside-Prints (symbol-Prints p.symbol)) (params-Prints ps)

decl-Prints : (d : Decl) → Prints (missing_body d) (decl_outline d) (visit_decl d)
unfolding visit_decl decl_outline missing_body
decl-Prints (gvar_decl line x a s) = inside-Prints (symbol-Prints s)
decl-Prints (func_decl line x a ps body s) = inside-Prints (
    then-Prints (symbol-Prints s)
      (then-Prints (inside-Prints (params-Prints ps)) (inside-Prints (children-Prints body))))
decl-Prints (mfunc_decl line x body s) =
    inside-Prints (then-Prints (symbol-Prints s) (inside-Prints (children-Prints body)))

decls-Prints : (ds : Program) → Prints (missing_rhs ds) (decls_outline ds) (visit_decls ds)
unfolding visit_decls decls_outline missing_rhs
decls-Prints [] = skip-Prints
decls-Prints (d ∷ ds) = then-Prints (decl-Prints d) (decls-Prints ds)

-- The printer, on a tree with any symbols, reads a null pointer exactly when an assignment lacks its
-- right-hand side; otherwise it appends the line of the program and the rendered outline, one level below, to
-- what was printed, and leaves the indentation as it was.
pub visit-Outlined :
    (ds : Program) (p : AstPrinter)
    → visit ds p ≡ (
        if missing_rhs ds
        then fault
        else ok (record p {
          cerr =
              p.cerr
              ++ (codes "Program" ++ (newline ++ render (p.m_indent + 1) (decls_outline ds)));
        }))
unfolding visit
visit-Outlined ds p = rw ((decls-Prints ds).prints _) (after (missing_rhs ds))
  where
    after :
        (b : Bool)
        → Outcome.◌>>=◌
            (if b
              then fault
              else ok (record {
                m_indent = p.m_indent + 1;
                cerr =
                    (p.cerr ++ (codes "Program" ++ newline))
                    ++ render (p.m_indent + 1) (decls_outline ds);
              }))
            back
          ≡ (if b
              then fault
              else ok (record p {
                cerr =
                    p.cerr
                    ++ (codes "Program" ++ (newline ++ render (p.m_indent + 1) (decls_outline ds)));
              }))
    after true = refl
    after false = simp (append_assoc, back_deeper p.m_indent)
