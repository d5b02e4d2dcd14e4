-- ===== src/Lexer/State.antt =====
-- lexer/lexer.h and `peek`, `consume` of lexer/lexer.cpp: the state of `class Lexer` over an input `I`,
-- and the two operations that the parser calls, over the function `lex` that finds the next token.
use jmm_llvm.Prelude.{ℕ, Bool, true, false, Bytes, not, if◌then◌else◌}
use jmm_llvm.Common.Token.{Token}
use jmm_llvm.Common.Outcome.{Outcome, ok, ◌>>=◌, Logger}

pub record Lexer (I : Type 0) : Type 0 where
  pub curr_lexeme : Bytes
  pub curr_token : Token
  pub consumed : Bool
  pub lineno : ℕ
  pub input : I
  pub logger : Logger

module _ {I : Type 0} (lex : Lexer I → Outcome (Lexer I)) where
  unfoldable pub peek : Lexer I → Outcome (Token × Lexer I)
  peek l =
      if not l.consumed
      then ok (l.curr_token, l)
      else do l' ← lex l; ok (l'.curr_token, record l' { consumed = false })

unfoldable pub consume : {I : Type 0} → Lexer I → Lexer I
consume l = record l { consumed = true }
