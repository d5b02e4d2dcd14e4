-- ===== src/Parser/Tests.antt =====
-- Runs of the lexer and the parser together.
use jmm_llvm.Parser.Enough.{pending}
use jmm_llvm.Parser.Enough.Text.{Text}
use jmm_llvm.Parser.Enough.Text.Whole.{lex-Text, parse-Text}
use jmm_llvm.Parser.Enough.Tokens.{next, token_source, listed}
use jmm_llvm.Parser.Enough.Programs.{parse-Ends}
use jmm_llvm.Parser.Base.{number, decimal}
use jmm_llvm.Lexer.State.{Lexer}
use jmm_llvm.Common.Plain.{plains}
use jmm_llvm.Prelude.{
  ◌≤◌, length, ◌+◌, Bytes, arith, List, true, some, none, [], ◌∷◌, codes, bytes_eq, ◌≡◌, refl,
  String, false,
}
use jmm_llvm.Common.Token.{Token, tok_eq}
use jmm_llvm.Common.Types.{VType, Op}
use jmm_llvm.Common.Outcome.{Outcome, ok, exit, expected, Ensures, ◌>>=◌}
use jmm_llvm.Common.Ast.{
  Program, gvar_decl, mfunc_decl, child, no_children, expr_stmt, assign_expr, id_expr, binary_expr,
  lit_expr, ival, assign_null, var_decl,
}
use jmm_llvm.Lexer.Lex.{lex, new_lexer}
use jmm_llvm.Lexer.Scan.{CharLexer}
use jmm_llvm.Frontend.{missing, missing_in, missing_body, missing_rhs, parse-analyze}
use jmm_llvm.Parser.Gives.{Post}
use jmm_llvm.Parser.Programs.{ParsedDecl, parse-Parsed}
use jmm_llvm.Semantic.Program.{Every}
use jmm_llvm.Semantic.Analyzer.{analyzer, analyze}
use jmm_llvm.Semantic.Analyzer.Sound.{Analyzed}
use jmm_llvm.Lexer.Stream
use jmm_llvm.Lexer.State
use jmm_llvm.Lexer.State.{consume}
use jmm_llvm.Lexer.Scan.{
  is_identifier, is_numeric, is_str, str_loop, take_while, is_reserved, is_word,
}
use jmm_llvm.Lexer.Operators.{is_operator, is_special}
use jmm_llvm.Lexer.Lex.{lex_loop, lex_round, skip_comment, other}
use jmm_llvm.Parser.Base.{
  type, identifier, match, match_any, error, non_null, literal, stoul_int32, token_to_op, unsigned,
  signed, skip_spaces,
}
use jmm_llvm.Parser.Expressions.{
  primary, arguments, argumentlist, functioninvocation, postfixes, postfixexpression,
  unaryexpression, operators, level, multiplicativeexpression, additiveexpression, shiftexpression,
  relationalexpression, equalityexpression, bitwiseandexpression, xorexpression,
  bitwiseorexpression, conditionalandexpression, conditionalorexpression, assignmentexpression,
  expression,
}
use jmm_llvm.Parser.Statements.{
  variabledeclaration, expr_statement, simple_stmt, return_statement, break_statement, if_statement,
  while_statement, children, block, block_statement, statement,
}
use jmm_llvm.Parser.Declarations.{
  parse, start, globaldeclaration, mainfunctiondeclaration, functiondeclarator, formalparameterlist,
  parameters, formalparameter,
}

parse_text : String → Outcome Program
unfolding parse start globaldeclaration mainfunctiondeclaration functiondeclarator
    formalparameterlist parameters formalparameter type identifier match match_any error non_null
    literal stoul_int32 unsigned signed skip_spaces token_to_op primary arguments argumentlist
    functioninvocation postfixes postfixexpression unaryexpression operators level
    multiplicativeexpression additiveexpression shiftexpression relationalexpression
    equalityexpression bitwiseandexpression xorexpression bitwiseorexpression
    conditionalandexpression conditionalorexpression assignmentexpression expression
    variabledeclaration expr_statement simple_stmt return_statement break_statement if_statement
    while_statement children block block_statement statement State.peek consume lex lex_loop
    lex_round skip_comment is_identifier is_numeric is_str str_loop take_while is_reserved is_word
    is_operator is_special other tok_eq Stream.peek Stream.get Stream.unget bytes_eq
parse_text s = parse lex 30 (new_lexer (codes s) (record { warnings = 0 }))

sample :
    parse_text "int x;\nm() { x = 1 - 2 - 3 * 4; }"
    ≡ ok (
        gvar_decl 1 (codes "x") VType.int none
        ∷ mfunc_decl 2
            (codes "m")
            (child
              (expr_stmt (
                assign_expr 2 (id_expr 2 (codes "x") none) (
                  binary_expr 2 Op.sub
                    (binary_expr 2 Op.sub (lit_expr 2 (ival 1)) (lit_expr 2 (ival 2)))
                    (binary_expr 2 Op.mult (lit_expr 2 (ival 3)) (lit_expr 2 (ival 4))))))
              no_children)
            none
        ∷ [])
unfolding parse_text
sample = refl

-- `break` does not take its semicolon, so an `else` behind it is refused.
break_else : parse_text "m() { if (true) break; else ; }" ≡ exit (expected 1 "}" Token.else_kw)
unfolding parse_text
break_else = refl

-- An assignment without a right-hand side is accepted, with a null pointer in the node.
assign_nothing :
    parse_text "m() { x = ; }"
    ≡ ok (
        mfunc_decl 1
          (codes "m")
          (child (expr_stmt (assign_null 1 (id_expr 1 (codes "x") none))) no_children)
          none
        ∷ [])
unfolding parse_text
assign_nothing = refl

-- A global, and the main function that declares a local variable and sets it.
abbrev small : Program
small =
    gvar_decl 1 (codes "x") VType.int none
    ∷ mfunc_decl 2 (codes "m")
        (child (var_decl 2 (codes "y") VType.int none) (
          child
            (expr_stmt (assign_expr 2 (id_expr 2 (codes "y") none) (id_expr 2 (codes "x") none)))
            no_children))
        none
    ∷ []

abbrev small_text : CharLexer
small_text = new_lexer (codes "int x;\nm() { int y; y = x; }") (record { warnings = 0 })

small_parsed : parse lex 30 small_text ≡ ok small
unfolding parse start globaldeclaration mainfunctiondeclaration functiondeclarator
    formalparameterlist parameters formalparameter type identifier match match_any error non_null
    literal stoul_int32 unsigned signed skip_spaces token_to_op primary arguments argumentlist
    functioninvocation postfixes postfixexpression unaryexpression operators level
    multiplicativeexpression additiveexpression shiftexpression relationalexpression
    equalityexpression bitwiseandexpression xorexpression bitwiseorexpression
    conditionalandexpression conditionalorexpression assignmentexpression expression
    variabledeclaration expr_statement simple_stmt return_statement break_statement if_statement
    while_statement children block block_statement statement State.peek consume lex lex_loop
    lex_round skip_comment is_identifier is_numeric is_str str_loop take_while is_reserved is_word
    is_operator is_special other tok_eq Stream.peek Stream.get Stream.unget bytes_eq
small_parsed = refl

small_complete : missing_rhs small ≡ false
unfolding missing_rhs missing_body missing_in missing
small_complete = refl

parse-analyze_example :
    Ensures Analyzed (analyzer (record { warnings = 0 }) >>= λ t. analyze small t)
parse-analyze_example =
    parse-analyze lex 30 small_text (record { warnings = 0 }) small small_parsed small_complete

parse-Parsed_example :
    Post (λ ds. Every ParsedDecl ds × (plains ds ≡ true)) (parse lex 30 small_text)
parse-Parsed_example = parse-Parsed lex 30 small_text

-- A number above 2 ^ 32, read and not consumed.
abbrev large : Lexer (Unit {0})
large = record {
  curr_lexeme = codes "4294967297";
  curr_token = Token.num;
  consumed = false;
  lineno = 3;
  input = tt;
  logger = record { warnings = 0 };
}

reduced :
    literal (λ l. ok l) large ≡ ok (some (lit_expr 3 (ival 1)), record large { consumed = true })
unfolding literal number stoul_int32 decimal unsigned signed skip_spaces match State.peek consume
    tok_eq
reduced = refl

-- m() { return 7 - 7; }
abbrev tokens : Lexer (List (Token × Bytes))
tokens = listed (
    (Token.id, codes "m")
    ∷ (Token.oparen, [])
    ∷ (Token.cparen, [])
    ∷ (Token.obrck, [])
    ∷ (Token.return_kw, [])
    ∷ (Token.num, codes "7")
    ∷ (Token.minus, [])
    ∷ (Token.num, codes "7")
    ∷ (Token.semicol, [])
    ∷ (Token.cbrck, [])
    ∷ [])

parse-Ends_example : Ensures (λ ds. Every ParsedDecl ds × (plains ds ≡ true)) (parse next 15 tokens)
parse-Ends_example = parse-Ends token_source 15 tokens tt (omega arith)

abbrev shortest : Bytes
shortest = codes "m() { ; }\n"

shortest-Text : Text shortest
shortest-Text = (cc, (cc, (cc, (cc, (cc, (cc, (cc, (cc, (cc, refl)))))))))

lex-Text_example :
    Ensures
      (λ (l' : CharLexer). Text l'.input.rest × (pending l'.curr_token + length l'.input.rest ≤ 10))
      (lex (new_lexer shortest (record { warnings = 0 })))
lex-Text_example = lex-Text (new_lexer shortest (record { warnings = 0 })) shortest-Text

parse-Text_example :
    Ensures
      (λ ds. Every ParsedDecl ds × (plains ds ≡ true))
      (parse lex 20 (new_lexer shortest (record { warnings = 0 })))
parse-Text_example = parse-Text shortest (record { warnings = 0 }) 20 shortest-Text (omega arith)
