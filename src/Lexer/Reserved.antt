-- ===== src/Lexer/Reserved.antt =====
-- The words of the language, and `isReserved`: which of them a word is.
use jmm_llvm.Prelude.{
  Option-cases, inl, inr, Bool-cases, some, none, List, [], ◌∷◌, Bytes, codes, bytes_eq,
  bytes_eq_iff, ◌≡◌, refl, ap, subst, arith,
}
use jmm_llvm.Common.Token.{Token}
use jmm_llvm.Lexer.Scan.{CharLexer, find_word, is_reserved, reserved_words}

-- The reserved words and their tokens.
pub data Keyword : Bytes → Token → Type 0 where
  true_kw : Keyword (codes "true") Token.true_kw
  false_kw : Keyword (codes "false") Token.false_kw
  boolean_kw : Keyword (codes "boolean") Token.bool_kw
  int_kw : Keyword (codes "int") Token.int_kw
  void_kw : Keyword (codes "void") Token.void_kw
  if_kw : Keyword (codes "if") Token.if_kw
  else_kw : Keyword (codes "else") Token.else_kw
  while_kw : Keyword (codes "while") Token.while_kw
  break_kw : Keyword (codes "break") Token.break_kw
  return_kw : Keyword (codes "return") Token.return_kw
  str_kw : Keyword (codes "str") Token.str

-- The token of a word and the lexeme that is kept: a reserved word has its own token and leaves no
-- lexeme, any other word is an identifier and is kept.
pub data Names (word : Bytes) : Token → Bytes → Type 0 where
  keyword : {t : Token} → Keyword word t → Names word t []
  identifier : ((t : Token) → ¬ Keyword word t) → Names word Token.id word

-- Each word of the list is a reserved word, and its token the one beside it.
abbrev AllKeywords : List (Bytes × Token) → Type 0
AllKeywords [] = Unit {0}
AllKeywords ((k, t) ∷ ws) = Keyword k t × AllKeywords ws

reserved_words-AllKeywords : AllKeywords reserved_words
reserved_words-AllKeywords = (
  Keyword.true_kw,
  (
    Keyword.false_kw,
    (
      Keyword.boolean_kw,
      (
        Keyword.int_kw,
        (
          Keyword.void_kw,
          (
            Keyword.if_kw,
            (
              Keyword.else_kw,
              (Keyword.while_kw, (Keyword.break_kw, (Keyword.return_kw, (Keyword.str_kw, tt)))),
            ),
          ),
        ),
      ),
    ),
  ),
)

find_word-Keyword :
    (w : Bytes) (t : Token) (ws : List (Bytes × Token))
    → AllKeywords ws
    → find_word w ws ≡ some t
    → Keyword w t
unfolding find_word
find_word-Keyword w t [] h e = cc
find_word-Keyword w t ((k, u) ∷ ws) (h, hs) e = elim (Bool-cases (bytes_eq k w)) [
  | inl same ↦ same_word ((bytes_eq_iff k w).0 same) (ground arith) h
  | inr other ↦ find_word-Keyword w t ws hs (ground arith)
]
  where
    same_word : k ≡ w → u ≡ t → Keyword k u → Keyword w t
    same_word p q h = subst (λ t. Keyword w t) q (subst (λ w. Keyword w u) p h)

unlisted : (w : Bytes) → find_word w reserved_words ≡ none → (t : Token) → ¬ Keyword w t
unfolding find_word bytes_eq
unlisted _ e _ Keyword.true_kw = cc
unlisted _ e _ Keyword.false_kw = cc
unlisted _ e _ Keyword.boolean_kw = cc
unlisted _ e _ Keyword.int_kw = cc
unlisted _ e _ Keyword.void_kw = cc
unlisted _ e _ Keyword.if_kw = cc
unlisted _ e _ Keyword.else_kw = cc
unlisted _ e _ Keyword.while_kw = cc
unlisted _ e _ Keyword.break_kw = cc
unlisted _ e _ Keyword.return_kw = cc
unlisted _ e _ Keyword.str_kw = cc

-- What `isReserved` makes of an identifier.
pub is_reserved-Names :
    (l : CharLexer)
    → l.curr_token ≡ Token.id
    → (t : Token) × (kept : Bytes) × Names l.curr_lexeme t kept
      × (is_reserved l ≡ record l { curr_token = t; curr_lexeme = kept })
unfolding is_reserved
is_reserved-Names l id = elim (Option-cases (find_word l.curr_lexeme reserved_words)) [
  | inl absent ↦ (
    Token.id,
    l.curr_lexeme,
    Names.identifier (unlisted l.curr_lexeme absent),
    rw (absent, is_reserved) (ap (λ t. record l { curr_token = t }) id),
  )
  | inr (t, there) ↦ (
    t,
    [],
    Names.keyword
        (find_word-Keyword l.curr_lexeme t reserved_words reserved_words-AllKeywords there),
    rw (there, is_reserved) refl,
  )
]
