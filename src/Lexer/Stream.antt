-- ===== src/Lexer/Stream.antt =====
-- The parts of `std::ifstream` that the lexer uses: `eof`, `peek`, `get` and `unget`, with the flags
-- that they read and set. A byte is a number below 256; `EOF` is `none`.
use jmm_llvm.Prelude.{
  ℕ, Bool, true, false, Option, none, some, [], ◌∷◌, Bytes, ◌&&◌, not, if◌then◌else◌,
}

-- `before` holds the bytes that were read, the last one first; `failbit` stands for badbit too.
pub record Stream : Type 0 where
  pub before : Bytes
  pub rest : Bytes
  pub eofbit : Bool
  pub failbit : Bool

abbrev pub open_stream : Bytes → Stream
open_stream file = record { before = []; rest = file; eofbit = false; failbit = false }

abbrev pub good : Stream → Bool
good s = not s.eofbit && not s.failbit

abbrev failed : Stream → Stream
failed s = record s { failbit = true }

peek_rest : Bytes → Stream → Option ℕ × Stream
peek_rest [] s = (none, record s { eofbit = true })
peek_rest (c ∷ cs) s = (some c, s)

unfoldable pub peek : Stream → Option ℕ × Stream
unfolding peek_rest
peek s = if good s then peek_rest s.rest s else (none, failed s)

get_rest : Bytes → Stream → Option ℕ × Stream
get_rest [] s = (none, record s { eofbit = true; failbit = true })
get_rest (c ∷ cs) s = (some c, record s { before = c ∷ s.before; rest = cs })

unfoldable pub get : Stream → Option ℕ × Stream
unfolding get_rest
get s = if good s then get_rest s.rest s else (none, failed s)

unget_before : Bytes → Stream → Stream
unget_before [] s = failed s
unget_before (c ∷ cs) s = record s { before = cs; rest = c ∷ s.rest }

-- The end-of-file flag is cleared first.
unfoldable pub unget : Stream → Stream
unfolding unget_before
unget s =
    let cleared = record s { eofbit = false } in
    if s.failbit then failed cleared else unget_before s.before cleared
