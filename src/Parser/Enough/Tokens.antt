-- ===== src/Parser/Enough/Tokens.antt =====
-- A source of tokens: the list of those that are left, each with its lexeme.
use jmm_llvm.Prelude.{◌+◌, ◌≤◌, true, List, [], ◌∷◌, Bytes, length, Bool-cases, inl, inr, arith}
use jmm_llvm.Common.Token.{Token}
use jmm_llvm.Common.Outcome.{Outcome, ok, Ensures}
use jmm_llvm.Lexer.State.{Lexer}
use jmm_llvm.Parser.Enough.{is_real, pending, Advances, Source}

abbrev pub next : Lexer (List (Token × Bytes)) → Outcome (Lexer (List (Token × Bytes)))
next l = elim l.input [
  | [] ↦ ok (record l { curr_token = Token.t_eof })
  | p ∷ ts ↦ ok (record l { curr_token = p.0; curr_lexeme = p.1; input = ts })
]

pub next-Advances : Advances next (λ _. Unit {0}) length
next-Advances l g = go l.input
  where
    pending_one : (t : Token) → pending t ≤ 1
    pending_one t = elim (Bool-cases (is_real t)) [
      | inl e ↦ rw e (omega arith)
      | inr e ↦ rw e (omega arith)
    ]

    go :
        (ts : List (Token × Bytes))
        → Ensures
            (λ (l' : Lexer (List (Token × Bytes))).
              Unit {0} × (pending l'.curr_token + length l'.input ≤ length ts))
            (next (record l { input = ts }))
    go [] = Ensures.returns (tt, omega arith)
    go (t ∷ ts) = let one = pending_one t.0 in Ensures.returns (tt, omega arith)

abbrev pub token_source : Source (List (Token × Bytes))
token_source = record { lex = next; Good = λ _. Unit; left = length; advances = next-Advances }

-- The lexer in front of the tokens.
abbrev pub listed : List (Token × Bytes) → Lexer (List (Token × Bytes))
listed ts = record {
  curr_lexeme = [];
  curr_token = Token.t_eof;
  consumed = true;
  lineno = 1;
  input = ts;
  logger = record { warnings = 0 };
}
