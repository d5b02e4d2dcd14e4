-- ===== src/Lib.antt =====
-- J--, a compiler for a small language: a lexer, a parser, a semantic analyzer and a code generator.
--
-- A run reads one file. The parser asks the lexer for tokens (`peek`, `consume`) and builds the tree, the
-- analyzer's three passes read and annotate it over one symbol table, and the code generator turns it into
-- LLVM code. Each stage reports through one logger, whose `error` ends the process.
--
-- Files, and the code that each is about (paths from the repository's root):
--   Prelude    names of the libraries, Boolean tests on numbers, byte strings
--   Common     src/common: Token and Types (globals.h), Outcome (errwarn.h and how a run ends), Symbol
--              (symtab.h), Ast (ast.h), Print (util.cpp); Void and Plain are predicates on trees
--   Symtab     src/common/symtab.h: `SymbolTable`; Symtab/Lookup its laws
--   Lexer      src/lexer: Stream (the file stream), State (`Lexer`, `peek`, `consume`), Scan (words, numbers,
--              strings), Operators, Lex (`lex`); Comments, Reserved, Words, Strings and Symbols hold the laws
--   Parser     src/parser/parser.cpp: Base, Expressions, Statements, Declarations; Gives, Nodes, Trees and
--              Programs hold what the parser returns, Enough that it ends
--   Semantic   src/semanal: Globals, Functions, Types (the three visitors) and Analyzer; Rules, Breaks, Shape
--              and Program are the static semantics that the visitors are measured by
--   Codegen    src/codegen: Llvm (the parameter), State, Expressions, Statements, Functions, Globals, Runtime
--              and Program (codegen_ir.cpp, codegen_globals.cpp); Laws is what the theorems rely on of LLVM,
--              Scoped and Program.Scope the trees they are about; Ready and the child modules hold the proofs,
--              Tests an LLVM in memory that keeps the laws
--   Printer    src/common/ast_printer.cpp; Outline is what it prints, Printed and Numbers the proofs
--   Driver     src/driver/driver.cpp: `compile`; Reach, Parts, Statements, Declarations, Globals and
--              Kept show that what the analyzer leaves is what the code generator asks for, Analyzed and
--              Compile put it together
--   Frontend   the parser and the analyzer, in the order of src/driver/driver.cpp
--
-- A function of the source keeps its name in snake case: `isStr` is `is_str`, `visit(IfStmt*)` a clause of
-- `visit_stmt`. State is passed: a method takes the object's record and returns it changed. An outcome is a
-- value (`ok`), the end of the process with a message (`exit`, a constructor of `Error` for each message),
-- undefined behaviour (`fault`: a null pointer is read, an empty container is popped) or `running`: a loop
-- has not ended within its fuel. A visitor that stores a symbol or a type in a node returns the node, or the
-- type. A node's pointer to a symbol is the symbol itself with its address: the front end changes no symbol
-- once it is made, and the field that the code generator sets is kept by address in its own state.
--
-- Numbers are natural numbers. A byte is below 256, and `EOF` stored in a `char` is the byte 255, as it is
-- where `char` is signed. Line numbers do not wrap. The number of a literal is reduced modulo 2 ^ 32, its
-- bit pattern as an `int32_t`, and a lexeme above the range of a 64-bit `unsigned long` ends the run.
--
-- Fuel: the analyzer needs none. `lex` gives its loops the length of the rest of the file and three more; a
-- round of a loop reads a byte, but for the last. The parser's loops and its recursion take the fuel that
-- `parse` is given; a unit for each token of the file and five more are enough. Parser.Enough shows it for any
-- source of tokens, its child Text for the lexer on a file without string literals whose last line ends.
--
-- LLVM is a parameter of the code generator: a record of its types and calls (Codegen.Llvm), with the laws
-- that a theorem relies on as a hypothesis (Codegen.Laws). A name is free when it is not empty and no function
-- or variable of the module has it, a private string included; a terminator ends a block when it is built at
-- the end of the block. Its calls that create something return no null
-- pointer, so that the tests of the source for one are not written out; `getFunction` and `getParent` may.
-- What LLVM's own assertions or its verifier would say of the module is outside the model.
--
-- Not modelled: the optimizer's and the object file's calls (src/codegen/codegen.cpp), the driver's object and
-- `main`, the prints of tables and modules, and a file that cannot be opened.
pub mod Prelude
pub mod Common
pub mod Symtab
pub mod Lexer
pub mod Parser
pub mod Semantic
pub mod Frontend
pub mod Codegen
pub mod Printer
pub mod Driver
