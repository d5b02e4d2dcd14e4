-- ===== src/Driver/Tests.antt =====
-- A run of the whole compiler.
use jmm_llvm.Common.Void.{no_voids, no_void_decl, no_void}
use jmm_llvm.Semantic.Analyzer.{analyzer, analyze}
use jmm_llvm.Semantic.Shape.{Shaped, InStmt, InChildren}
use jmm_llvm.Semantic.Program.{ShapedDecl}
use jmm_llvm.Common.Outcome.{◌>>=◌}
use jmm_llvm.Driver.Analyzed.{Compiles, analyze-Compiles}
use jmm_llvm.Prelude.{
  true, false, none, List, [], ◌∷◌, Bytes, codes, bytes_eq, ◌≡◌, refl, subst, arith,
}
use jmm_llvm.Common.Token.{Token, tok_eq}
use jmm_llvm.Common.Types.{VType}
use jmm_llvm.Common.Outcome.{ok, Ensures}
use jmm_llvm.Common.Ast.{
  Program, gvar_decl, mfunc_decl, child, no_children, expr_stmt, assign_expr, id_expr, lit_expr,
  ival,
}
use jmm_llvm.Lexer.State
use jmm_llvm.Lexer.State.{Lexer, consume}
use jmm_llvm.Parser.Base.{number, decimal}
use jmm_llvm.Parser.Base.{
  type, identifier, match, match_any, error, non_null, literal, stoul_int32, token_to_op, unsigned,
  signed, skip_spaces,
}
use jmm_llvm.Parser.Expressions.{
  primary, arguments, argumentlist, functioninvocation, postfixes, postfixexpression,
  unaryexpression, operators, level, multiplicativeexpression, additiveexpression, shiftexpression,
  relationalexpression, equalityexpression, bitwiseandexpression, xorexpression,
  bitwiseorexpression, conditionalandexpression, conditionalorexpression, assignmentexpression,
  expression,
}
use jmm_llvm.Parser.Statements.{
  variabledeclaration, expr_statement, simple_stmt, return_statement, break_statement, if_statement,
  while_statement, children, block, block_statement, statement,
}
use jmm_llvm.Parser.Declarations.{
  parse, start, globaldeclaration, mainfunctiondeclaration, functiondeclarator, formalparameterlist,
  parameters, formalparameter,
}
use jmm_llvm.Parser.Enough.Tokens.{next, token_source, listed}
use jmm_llvm.Frontend.{missing, missing_in, missing_body, missing_rhs}
use jmm_llvm.Codegen.Globals.Provided.{names}
use jmm_llvm.Codegen.Tests.Machine.{machine, empty_machine}
use jmm_llvm.Codegen.Tests.Lawful.{builder_laws, block_laws, module_laws}
use jmm_llvm.Driver.{compile}
use jmm_llvm.Driver.Compile.{Compiled, any_taken, compile-Compiled}

-- int x; m() { x = 7; }
abbrev tokens : Lexer (List (Token × Bytes))
tokens = listed (
    (Token.int_kw, [])
    ∷ (Token.id, codes "x")
    ∷ (Token.semicol, [])
    ∷ (Token.id, codes "m")
    ∷ (Token.oparen, [])
    ∷ (Token.cparen, [])
    ∷ (Token.obrck, [])
    ∷ (Token.id, codes "x")
    ∷ (Token.assign, [])
    ∷ (Token.num, codes "7")
    ∷ (Token.semicol, [])
    ∷ (Token.cbrck, [])
    ∷ [])

abbrev tree : Program
tree =
    gvar_decl 1 (codes "x") VType.int none
    ∷ mfunc_decl 1 (codes "m")
        (child (expr_stmt (assign_expr 1 (id_expr 1 (codes "x") none) (lit_expr 1 (ival 7))))
          no_children)
        none
    ∷ []

parsed : parse next 20 tokens ≡ ok tree
unfolding parse start globaldeclaration mainfunctiondeclaration functiondeclarator
    formalparameterlist parameters formalparameter type identifier match match_any error non_null
    literal stoul_int32 unsigned signed skip_spaces token_to_op primary arguments argumentlist
    functioninvocation postfixes postfixexpression unaryexpression operators level
    multiplicativeexpression additiveexpression shiftexpression relationalexpression
    equalityexpression bitwiseandexpression xorexpression bitwiseorexpression
    conditionalandexpression conditionalorexpression assignmentexpression expression
    variabledeclaration expr_statement simple_stmt return_statement break_statement if_statement
    while_statement children block block_statement statement State.peek consume tok_eq decimal
    number
parsed = refl

tree_fits : (missing_rhs tree ≡ false) × (any_taken (names tree) ≡ false)
unfolding missing_rhs missing_body missing_in missing bytes_eq
tree_fits = (refl, refl)

fits :
    (p : Program)
    → parse next 20 tokens ≡ ok p
    → (missing_rhs p ≡ false) × (any_taken (names p) ≡ false)
fits p e =
    let same : tree ≡ p = cc (parsed, e) in
    subst (λ p. (missing_rhs p ≡ false) × (any_taken (names p) ≡ false)) same tree_fits

compile-Compiled_example :
    Ensures (Compiled token_source machine 20 tokens) (compile next machine 20 tokens empty_machine)
compile-Compiled_example =
    compile-Compiled token_source machine builder_laws block_laws module_laws 20 tokens
      empty_machine tt (omega arith) (λ x d. record { spelled = d; unused = refl }) fits

tree_full : no_voids tree ≡ true
unfolding no_voids no_void_decl no_void
tree_full = refl

analyze-Compiles_example :
    Ensures (Compiles tree) (analyzer (record { warnings = 0 }) >>= λ t. analyze tree t)
analyze-Compiles_example =
    analyze-Compiles (record { warnings = 0 }) tree
      (
        ShapedDecl.gvar,
        (
          ShapedDecl.main
              (InChildren.cons (InStmt.expr (Shaped.assign Shaped.id Shaped.lit)) InChildren.nil),
          tt,
        ),
      )
      tree_full
