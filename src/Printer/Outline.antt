-- ===== src/Printer/Outline.antt =====
-- What `ASTPrinter` prints: the outline of the tree, an entry for each node and each symbol, one level
-- below the entry of its parent.
use jmm_llvm.Prelude.{ℕ, ◌+◌, Option, none, some, List, [], ◌∷◌, ◌++◌, Bytes, codes}
use jmm_llvm.Common.Symbol.{Symbol}
use jmm_llvm.Common.Ast.{
  Expr, Actuals, id_expr, lit_expr, unary_expr, binary_expr, bitwise_expr, assign_expr, assign_null,
  func_call_expr, no_actuals, actual, Stmt, Children, if_stmt, if_else_stmt, while_stmt,
  return_stmt, break_stmt, block_stmt, expr_stmt, null_stmt, var_decl, no_children, child,
  ParamDecl, Decl, gvar_decl, func_decl, mfunc_decl, Program,
}
use jmm_llvm.Common.Print.{op_to_str}
use jmm_llvm.Printer.{
  spaces, show, newline, show_type, symbol_text, literal_text, literal_type, quoted, typed,
}

-- An entry, the entries below it, and those beside it.
pub data Forest : Type 0 where
  nothing : Forest
  entry : Bytes → Forest → Forest → Forest

infixr 6 ◌beside◌
unfoldable pub ◌beside◌ : Forest → Forest → Forest
nothing beside g = g
(entry text inner rest) beside g = entry text inner (rest beside g)

abbrev pub leaf : Bytes → Forest
leaf text = entry text nothing nothing

abbrev pub alone : Bytes → Forest → Forest
alone text inner = entry text inner nothing

-- Each entry on a line of its own, behind as many spaces as it is deep.
unfoldable pub render : ℕ → Forest → Bytes
render d nothing = []
render d (entry text inner rest) =
    spaces d ++ (text ++ (newline ++ (render (d + 1) inner ++ render d rest)))

abbrev pub at_line : Bytes → ℕ → Bytes
at_line text line = text ++ (codes "; Line: " ++ show line)

-- The tree that is printed.
unfoldable pub symbol_outline : Option Symbol → Forest
symbol_outline none = nothing
symbol_outline (some s) = leaf (symbol_text s ++ (codes "; Declared at line " ++ show s.line))

unfoldable mutual
  unfolding symbol_outline

  pub expr_outline : Expr → Forest
  expr_outline (id_expr line x s) =
      alone (at_line (quoted "ID; Value: \"" x) line) (symbol_outline s)
  expr_outline (lit_expr line l) = leaf (
      at_line
        (codes "Literal; Value: '"
          ++ (literal_text l ++ (codes "'; Type: " ++ show_type (literal_type l))))
        line)
  expr_outline (unary_expr line op e) =
      alone (at_line (codes "UnaryExpr; Op: " ++ codes (op_to_str op)) line) (expr_outline e)
  expr_outline (binary_expr line op l r) =
      alone (at_line (codes "BinaryExpr; Op: " ++ codes (op_to_str op)) line)
        (expr_outline l beside expr_outline r)
  expr_outline (bitwise_expr line op l r) =
      alone (at_line (codes "BitwiseExpr; Op: " ++ codes (op_to_str op)) line)
        (expr_outline l beside expr_outline r)
  expr_outline (assign_expr line l r) =
      alone (at_line (codes "AssignExpr (=)") line) (expr_outline l beside expr_outline r)
  expr_outline (assign_null line l) = alone (at_line (codes "AssignExpr (=)") line) (expr_outline l)
  expr_outline (func_call_expr line f es s) =
      alone (at_line (quoted "FuncCall; Value: \"" f) line)
        (symbol_outline s beside alone (codes "Actuals;") (actuals_outline es))

  pub actuals_outline : Actuals → Forest
  actuals_outline no_actuals = nothing
  actuals_outline (actual e es) = expr_outline e beside actuals_outline es

unfoldable mutual
  unfolding expr_outline

  pub stmt_outline : Stmt → Forest
  stmt_outline (if_stmt line c s) =
      alone (at_line (codes "IfStmt") line) (expr_outline c beside stmt_outline s)
  stmt_outline (if_else_stmt line c s t) =
      alone (at_line (codes "IfElseStmt") line)
        (expr_outline c beside stmt_outline s beside stmt_outline t)
  stmt_outline (while_stmt line c s) =
      alone (at_line (codes "WhileStmt") line) (expr_outline c beside stmt_outline s)
  stmt_outline (return_stmt line none) = leaf (at_line (codes "ReturnStmt") line)
  stmt_outline (return_stmt line (some e)) =
      alone (at_line (codes "ReturnStmt") line) (expr_outline e)
  stmt_outline (break_stmt line) = leaf (at_line (codes "BreakStmt") line)
  stmt_outline (block_stmt body) = alone (codes "Block;") (children_outline body)
  stmt_outline (expr_stmt e) = alone (codes "ExprStmt;") (expr_outline e)
  stmt_outline (null_stmt line) = leaf (at_line (codes "NullStmt") line)
  stmt_outline (var_decl line x a s) =
      alone (at_line (typed "VarDecl; Value: \"" x a) line) (symbol_outline s)

  pub children_outline : Children → Forest
  children_outline no_children = nothing
  children_outline (child s ss) = stmt_outline s beside children_outline ss

unfoldable pub params_outline : List ParamDecl → Forest
params_outline [] = nothing
params_outline (p ∷ ps) =
    entry (at_line (typed "ParamDecl; Value: \"" p.id p.type) p.line) (symbol_outline p.symbol)
      (params_outline ps)

unfoldable pub decl_outline : Decl → Forest
decl_outline (gvar_decl line x a s) =
    alone (at_line (typed "GVarDecl; Value: \"" x a) line) (symbol_outline s)
decl_outline (func_decl line x a ps body s) =
    alone (at_line (quoted "FuncDecl; Value: \"" x ++ (codes "; Type: " ++ show_type a)) line) (
      symbol_outline s
      beside alone (codes "Parameters;") (params_outline ps)
      beside alone (codes "Block;") (children_outline body))
decl_outline (mfunc_decl line x body s) =
    alone (at_line (quoted "MainFuncDecl; Value: \"" x) line)
      (symbol_outline s beside alone (codes "Block;") (children_outline body))

unfoldable pub decls_outline : Program → Forest
decls_outline [] = nothing
decls_outline (d ∷ ds) = decl_outline d beside decls_outline ds
