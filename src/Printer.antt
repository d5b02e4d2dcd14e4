-- ===== src/Printer.antt =====
-- common/ast_printer.cpp: `ASTPrinter`, the debug output of the tree, and `Symbol::print` of
-- common/symtab.h. The stream `std::cerr` is the list of the bytes that were written to it.
use jmm_llvm.Prelude.{
  String, ℕ, zero, suc, ◌+◌, ◌-◌, ◌*◌, ◌/◌, ◌%◌, ◌^◌, Bool, true, false, Option, none, some, List,
  [], ◌∷◌, ◌++◌, Bytes, codes, ltb, if◌then◌else◌,
}
use jmm_llvm.Common.Types.{VType}
use jmm_llvm.Common.Outcome.{Outcome, ok, fault}
use jmm_llvm.Common.Outcome
use jmm_llvm.Common.Symbol.{Symbol, SymType}
use jmm_llvm.Common.Ast.{
  Literal, ival, bval, sval, Expr, Actuals, id_expr, lit_expr, unary_expr, binary_expr,
  bitwise_expr, assign_expr, assign_null, func_call_expr, no_actuals, actual, Stmt, Children,
  if_stmt, if_else_stmt, while_stmt, return_stmt, break_stmt, block_stmt, expr_stmt, null_stmt,
  var_decl, no_children, child, ParamDecl, Decl, gvar_decl, func_decl, mfunc_decl, Program,
}
use jmm_llvm.Common.Print.{vtype_to_str, op_to_str}
pub mod Outline
pub mod Printed
pub mod Numbers
mod Tests

pub record AstPrinter : Type 0 where
  pub m_indent : ℕ
  pub cerr : Bytes

abbrev pub new_printer : AstPrinter
new_printer = record { m_indent = 0; cerr = [] }

abbrev pub Visit : Type 0
Visit = AstPrinter → Outcome AstPrinter

infixr 5 ◌▸◌
abbrev pub ◌▸◌ : Visit → Visit → Visit
v ▸ w = λ p. Outcome.◌>>=◌ (v p) w

abbrev pub skip : Visit
skip = λ p. ok p

abbrev pub out : Bytes → Visit
out text = λ p. ok (record p { cerr = p.cerr ++ text })

-- `std::string(m_indent, ' ')`
unfoldable pub spaces : ℕ → Bytes
spaces zero = []
spaces (suc n) = b' ' ∷ spaces n

abbrev pub pad : Visit
pad = λ p. out (spaces p.m_indent) p

-- `++m_indent`, `--m_indent`; the second only ever undoes the first.
abbrev pub deeper : Visit
deeper = λ p. ok (record p { m_indent = p.m_indent + 1 })

abbrev pub back : Visit
back = λ p. ok (record p { m_indent = p.m_indent - 1 })

-- `operator<<` on an `int`: the decimal digits, behind a sign. A unit of fuel for each digit.
unfoldable pub digits : ℕ → ℕ → Bytes
digits zero n = []
digits (suc f) n =
    let front = digits f (n / 10) in
    if ltb n 10 then (b'0' + n) ∷ [] else front ++ (b'0' + n % 10) ∷ []

unfoldable pub show : ℕ → Bytes
show n = digits (n + 1) n

-- The value of an `int32_t`, given as its bit pattern.
unfoldable pub show_int32 : ℕ → Bytes
show_int32 n = if ltb n (2 ^ 31) then show n else b'-' ∷ show (2 ^ 32 - n)

abbrev pub newline : Bytes
newline = b'\n' ∷ []

abbrev pub show_type : VType → Bytes
show_type a = codes (vtype_to_str a)

unfoldable pub show_types : List VType → Bytes
show_types [] = []
show_types (a ∷ types) = show_type a ++ (codes " " ++ show_types types)

-- What `Symbol::print` writes in front of the line.
unfoldable pub symbol_text : Symbol → Bytes
unfolding show_types
symbol_text s = elim s.symbol_type [
  | SymType.var ↦ codes "Symbol; Type: " ++ show_type s.v_type
  | SymType.func ↦
      if s.is_main
      then codes "Symbol; Main function"
      else codes "Symbol; Return Type: "
        ++ (show_type s.v_type ++ elim s.param_types [
          | none ↦ []
          | some ps ↦ codes "; Param Types: " ++ show_types ps
        ])
]

abbrev pub print : Symbol → Visit
print s = out (symbol_text s) ▸ out (codes "; Declared at line ") ▸ out (show s.line) ▸ out newline

-- `PRINT_SYMBOL`
unfoldable pub print_symbol : Option Symbol → Visit
print_symbol none = skip
print_symbol (some s) = pad ▸ print s

-- The text of a node in front of its line.
unfoldable pub literal_text : Literal → Bytes
literal_text (ival n) = show_int32 n
literal_text (bval true) = codes "1"
literal_text (bval false) = codes "0"
literal_text (sval s) = s

abbrev pub literal_type : Literal → VType
literal_type (ival n) = VType.int
literal_type (bval b) = VType.bool
literal_type (sval s) = VType.str

-- `<< "; Line: " << node->line << '\n'`
abbrev pub lined : Bytes → ℕ → Visit
lined text line = pad ▸ out (text ++ (codes "; Line: " ++ show line)) ▸ out newline

-- A line of text without the number of the node's line.
abbrev pub plain : Bytes → Visit
plain text = pad ▸ out text ▸ out newline

abbrev pub inside : Visit → Visit
inside v = deeper ▸ v ▸ back

abbrev pub quoted : String → Bytes → Bytes
quoted what name = codes what ++ (name ++ codes "\"")

abbrev pub typed : String → Bytes → VType → Bytes
typed what name a = quoted what name ++ (codes " Type: " ++ show_type a)

unfoldable mutual
  pub visit_expr : Expr → Visit
  visit_expr (id_expr line x s) = lined (quoted "ID; Value: \"" x) line ▸ inside (print_symbol s)
  visit_expr (lit_expr line l) =
      lined
        (codes "Literal; Value: '"
          ++ (literal_text l ++ (codes "'; Type: " ++ show_type (literal_type l))))
        line
      ▸ inside (print_symbol none)
  visit_expr (unary_expr line op e) =
      lined (codes "UnaryExpr; Op: " ++ codes (op_to_str op)) line ▸ inside (visit_expr e)
  visit_expr (binary_expr line op l r) =
      lined (codes "BinaryExpr; Op: " ++ codes (op_to_str op)) line
      ▸ inside (visit_expr l ▸ visit_expr r)
  visit_expr (bitwise_expr line op l r) =
      lined (codes "BitwiseExpr; Op: " ++ codes (op_to_str op)) line
      ▸ inside (visit_expr l ▸ visit_expr r)
  visit_expr (assign_expr line l r) =
      lined (codes "AssignExpr (=)") line ▸ inside (visit_expr l ▸ visit_expr r)
  -- `accept` on a null pointer
  visit_expr (assign_null line l) =
      lined (codes "AssignExpr (=)") line ▸ inside (visit_expr l ▸ λ p. fault)
  visit_expr (func_call_expr line f es s) =
      lined (quoted "FuncCall; Value: \"" f) line
      ▸ inside (print_symbol s ▸ plain (codes "Actuals;") ▸ inside (visit_actuals es))

  pub visit_actuals : Actuals → Visit
  visit_actuals no_actuals = skip
  visit_actuals (actual e es) = visit_expr e ▸ visit_actuals es

unfoldable mutual
  pub visit_stmt : Stmt → Visit
  visit_stmt (if_stmt line c s) = lined (codes "IfStmt") line ▸ inside (visit_expr c ▸ visit_stmt s)
  visit_stmt (if_else_stmt line c s t) =
      lined (codes "IfElseStmt") line ▸ inside (visit_expr c ▸ visit_stmt s ▸ visit_stmt t)
  visit_stmt (while_stmt line c s) =
      lined (codes "WhileStmt") line ▸ inside (visit_expr c ▸ visit_stmt s)
  visit_stmt (return_stmt line none) = lined (codes "ReturnStmt") line ▸ inside skip
  visit_stmt (return_stmt line (some e)) = lined (codes "ReturnStmt") line ▸ inside (visit_expr e)
  visit_stmt (break_stmt line) = lined (codes "BreakStmt") line
  visit_stmt (block_stmt body) = plain (codes "Block;") ▸ inside (visit_children body)
  visit_stmt (expr_stmt e) = plain (codes "ExprStmt;") ▸ inside (visit_expr e)
  visit_stmt (null_stmt line) = lined (codes "NullStmt") line
  visit_stmt (var_decl line x a s) =
      lined (typed "VarDecl; Value: \"" x a) line ▸ inside (print_symbol s)

  pub visit_children : Children → Visit
  visit_children no_children = skip
  visit_children (child s ss) = visit_stmt s ▸ visit_children ss

unfoldable pub visit_params : List ParamDecl → Visit
visit_params [] = skip
visit_params (p ∷ ps) =
    (lined (typed "ParamDecl; Value: \"" p.id p.type) p.line ▸ inside (print_symbol p.symbol))
    ▸ visit_params ps

unfoldable pub visit_decl : Decl → Visit
visit_decl (gvar_decl line x a s) =
    lined (typed "GVarDecl; Value: \"" x a) line ▸ inside (print_symbol s)
visit_decl (func_decl line x a ps body s) =
    lined (quoted "FuncDecl; Value: \"" x ++ (codes "; Type: " ++ show_type a)) line
    ▸ inside (
        print_symbol s
        ▸ (plain (codes "Parameters;") ▸ inside (visit_params ps))
        ▸ (plain (codes "Block;") ▸ inside (visit_children body)))
visit_decl (mfunc_decl line x body s) =
    lined (quoted "MainFuncDecl; Value: \"" x) line
    ▸ inside (print_symbol s ▸ (plain (codes "Block;") ▸ inside (visit_children body)))

unfoldable pub visit_decls : Program → Visit
visit_decls [] = skip
visit_decls (d ∷ ds) = visit_decl d ▸ visit_decls ds

-- `visit(ASTNode*)`: the root.
unfoldable pub visit : Program → Visit
visit ds = out (codes "Program" ++ newline) ▸ inside (visit_decls ds)
