-- ===== src/Frontend.antt =====
-- The parser and the analyzer together, as driver/driver.cpp calls them.
use jmm_llvm.Prelude.{subst, ℕ, Bool, true, false, none, some, [], ◌∷◌, ◌||◌, ◌≡◌, refl}
use jmm_llvm.Common.Outcome.{Outcome, ok, Ensures, ◌>>=◌, Logger}
use jmm_llvm.Common.Ast.{
  Expr, Actuals, id_expr, lit_expr, unary_expr, binary_expr, bitwise_expr, assign_expr, assign_null,
  func_call_expr, no_actuals, actual, Stmt, Children, if_stmt, if_else_stmt, while_stmt,
  return_stmt, break_stmt, block_stmt, expr_stmt, null_stmt, var_decl, no_children, child, Decl,
  gvar_decl, func_decl, mfunc_decl, Program,
}
use jmm_llvm.Lexer.State.{Lexer}
use jmm_llvm.Parser.Declarations.{parse}
use jmm_llvm.Parser.Gives.{Post}
use jmm_llvm.Parser.Nodes.{Parsed, AllParsed}
use jmm_llvm.Parser.Programs.{ParsedDecl, parse-Parsed}
use jmm_llvm.Semantic.Shape.{Shaped, AllShaped, InStmt, InChildren}
use jmm_llvm.Semantic.Program.{ShapedDecl, Every}
use jmm_llvm.Semantic.Analyzer.{analyzer, analyze}
use jmm_llvm.Semantic.Analyzer.Sound.{Analyzed, analyze-Analyzed}

-- Whether an assignment of the expression has no right-hand side.
unfoldable mutual
  pub missing : Expr → Bool
  missing (id_expr line x s) = false
  missing (lit_expr line l) = false
  missing (unary_expr line op e) = missing e
  missing (binary_expr line op l r) = missing l || missing r
  missing (bitwise_expr line op l r) = missing l || missing r
  missing (assign_expr line l r) = missing l || missing r
  missing (assign_null line l) = true
  missing (func_call_expr line f es s) = any_missing es

  pub any_missing : Actuals → Bool
  any_missing no_actuals = false
  any_missing (actual e es) = missing e || any_missing es

unfoldable mutual
  unfolding missing

  pub missing_in : Stmt → Bool
  missing_in (if_stmt line c s) = missing c || missing_in s
  missing_in (if_else_stmt line c s t) = missing c || (missing_in s || missing_in t)
  missing_in (while_stmt line c s) = missing c || missing_in s
  missing_in (return_stmt line none) = false
  missing_in (return_stmt line (some e)) = missing e
  missing_in (break_stmt line) = false
  missing_in (block_stmt body) = missing_inside body
  missing_in (expr_stmt e) = missing e
  missing_in (null_stmt line) = false
  missing_in (var_decl line x a s) = false

  pub missing_inside : Children → Bool
  missing_inside no_children = false
  missing_inside (child s ss) = missing_in s || missing_inside ss

unfoldable pub missing_body : Decl → Bool
unfolding missing_in
missing_body (gvar_decl line x a s) = false
missing_body (func_decl line x a ps body s) = missing_inside body
missing_body (mfunc_decl line x body s) = missing_inside body

unfoldable pub missing_rhs : Program → Bool
unfolding missing_body
missing_rhs [] = false
missing_rhs (d ∷ ds) = missing_body d || missing_rhs ds

pub left : (a b : Bool) → (a || b) ≡ false → a ≡ false
left true b e = e
left false b e = refl

pub right : (a b : Bool) → (a || b) ≡ false → b ≡ false
right true b e = cc
right false b e = e

mutual
  unfolding missing

  Parsed-Shaped : {e : Expr} → Parsed e → missing e ≡ false → Shaped e
  Parsed-Shaped Parsed.id m = Shaped.id
  Parsed-Shaped (Parsed.lit _) m = Shaped.lit
  Parsed-Shaped (Parsed.unary u p) m = Shaped.unary u (Parsed-Shaped p m)
  Parsed-Shaped (Parsed.binary p q) m =
      Shaped.binary (Parsed-Shaped p (left _ _ m)) (Parsed-Shaped q (right _ _ m))
  Parsed-Shaped (Parsed.bitwise p q) m =
      Shaped.bitwise (Parsed-Shaped p (left _ _ m)) (Parsed-Shaped q (right _ _ m))
  Parsed-Shaped (Parsed.assign p q) m =
      Shaped.assign (Parsed-Shaped p (left _ _ m)) (Parsed-Shaped q (right _ _ m))
  Parsed-Shaped (Parsed.missing p) m = cc
  Parsed-Shaped (Parsed.call ps) m = Shaped.call (AllParsed-AllShaped ps m)

  AllParsed-AllShaped : {es : Actuals} → AllParsed es → any_missing es ≡ false → AllShaped es
  AllParsed-AllShaped AllParsed.nil m = AllShaped.nil
  AllParsed-AllShaped (AllParsed.cons p ps) m =
      AllShaped.cons (Parsed-Shaped p (left _ _ m)) (AllParsed-AllShaped ps (right _ _ m))

mutual
  unfolding missing_in

  stmt-Shaped : {s : Stmt} → InStmt Parsed s → missing_in s ≡ false → InStmt Shaped s
  stmt-Shaped (InStmt.if_ p i) m =
      InStmt.if_ (Parsed-Shaped p (left _ _ m)) (stmt-Shaped i (right _ _ m))
  stmt-Shaped (InStmt.if_else p i j) m =
      InStmt.if_else (Parsed-Shaped p (left _ _ m)) (stmt-Shaped i (left _ _ (right _ _ m)))
        (stmt-Shaped j (right _ _ (right _ _ m)))
  stmt-Shaped (InStmt.while_ p i) m =
      InStmt.while_ (Parsed-Shaped p (left _ _ m)) (stmt-Shaped i (right _ _ m))
  stmt-Shaped InStmt.return_void m = InStmt.return_void
  stmt-Shaped (InStmt.return_value p) m = InStmt.return_value (Parsed-Shaped p m)
  stmt-Shaped InStmt.break_ m = InStmt.break_
  stmt-Shaped (InStmt.block is) m = InStmt.block (children-Shaped is m)
  stmt-Shaped (InStmt.expr p) m = InStmt.expr (Parsed-Shaped p m)
  stmt-Shaped InStmt.null m = InStmt.null
  stmt-Shaped InStmt.var m = InStmt.var

  children-Shaped :
      {ss : Children} → InChildren Parsed ss → missing_inside ss ≡ false → InChildren Shaped ss
  children-Shaped InChildren.nil m = InChildren.nil
  children-Shaped (InChildren.cons i is) m =
      InChildren.cons (stmt-Shaped i (left _ _ m)) (children-Shaped is (right _ _ m))

decl-Shaped : {d : Decl} → ParsedDecl d → missing_body d ≡ false → ShapedDecl d
unfolding missing_body
decl-Shaped ParsedDecl.gvar m = ShapedDecl.gvar
decl-Shaped (ParsedDecl.func is) m = ShapedDecl.func (children-Shaped is m)
decl-Shaped (ParsedDecl.main is) m = ShapedDecl.main (children-Shaped is m)

pub program-Shaped :
    (ds : Program) → Every ParsedDecl ds → missing_rhs ds ≡ false → Every ShapedDecl ds
unfolding missing_rhs
program-Shaped [] p m = tt
program-Shaped (d ∷ ds) (p, ps) m = (decl-Shaped p (left _ _ m), program-Shaped ds ps (right _ _ m))

Post-ok : {A : Type 0} {P : A → Type 0} {r : Outcome A} {a : A} → Post P r → r ≡ ok a → P a
Post-ok {P = P} (Post.returned h) e = subst P (cc) h
Post-ok Post.ended e = cc
Post-ok Post.undefined e = cc
Post-ok Post.unfinished e = cc

-- Whatever the tokens, when the parser returns a program in which every assignment has its right-hand
-- side, the analyzer ends the process with an error or returns a tree with one main function, resolved
-- names, breaks in loops and typed bodies; it never reads a null pointer.
pub parse-analyze :
    {I : Type 0} (lex : Lexer I → Outcome (Lexer I)) (f : ℕ) (l : Lexer I) (g : Logger)
    (p : Program)
    → parse lex f l ≡ ok p
    → missing_rhs p ≡ false
    → Ensures Analyzed (analyzer g >>= λ t. analyze p t)
parse-analyze lex f l g p e m =
    analyze-Analyzed g p (program-Shaped p (Post-ok (parse-Parsed lex f l) e).0 m)
