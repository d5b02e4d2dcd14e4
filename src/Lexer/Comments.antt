-- ===== src/Lexer/Comments.antt =====
-- Comments: the loop of `lex` that skips one ends at the newline, and only there.
use jmm_llvm.Prelude.{
  ℕ, zero, suc, ◌<◌, Bool, true, false, [], ◌∷◌, ◌++◌, Bytes, ◌==◌, ◌≡◌, ◌≢◌, refl, arith, length,
}
use jmm_llvm.Common.Outcome.{ok, running}
use jmm_llvm.Lexer.Stream.{Stream}
use jmm_llvm.Lexer.Stream
use jmm_llvm.Lexer.Lex.{skip_comment}

-- A stream in the middle of a file, with no flag set.
abbrev pub between : Bytes → Bytes → Stream
between before rest = record { before = before; rest = rest; eofbit = false; failbit = false }

-- The bytes `cs` moved to the front of what was read.
unfoldable pub moved : Bytes → Bytes → Bytes
moved [] before = before
moved (c ∷ cs) before = moved cs (c ∷ before)

abbrev pub Avoids : ℕ → Bytes → Type 0
Avoids x [] = Unit {0}
Avoids x (c ∷ cs) = (c ≢ x) × Avoids x cs

-- With a round of fuel for each byte and one more, the loop stops in front of the first newline.
pub skip_comment-newline :
    (cs ds before : Bytes) (f : ℕ)
    → Avoids b'\n' cs
    → length cs < f
    → skip_comment f (between before (cs ++ b'\n' ∷ ds))
      ≡ ok (between (moved cs before) (b'\n' ∷ ds))
unfolding skip_comment Stream.peek Stream.get moved
skip_comment-newline [] ds before (suc f) a h = refl
skip_comment-newline (c ∷ cs) ds before (suc f) (a, as') h =
    let different : (c == b'\n') ≡ false = ground arith in
    rw (different, skip_comment) (skip_comment-newline cs ds (c ∷ before) f as' (omega arith))
skip_comment-newline cs ds before zero a h = absurd (omega arith)

-- The flags of a stream that has reached its end, or has failed, or neither.
endless_fields :
    (f : ℕ) (before rest : Bytes) (e d : Bool)
    → Avoids b'\n' rest
    → skip_comment f (record { before = before; rest = rest; eofbit = e; failbit = d }) ≡ running
unfolding skip_comment Stream.peek Stream.get
endless_fields zero before rest e d a = refl
endless_fields (suc f) before rest true d a = endless_fields f before rest true true a
endless_fields (suc f) before rest false true a = endless_fields f before rest false true a
endless_fields (suc f) before [] false false a = endless_fields f before [] true true a
endless_fields (suc f) before (c ∷ cs) false false (a, as') =
    let different : (c == b'\n') ≡ false = ground arith in
    rw (different, skip_comment) (endless_fields f (c ∷ before) cs false false as')

-- Without a newline in what is left of the file, the loop over a comment never ends: however many
-- rounds it runs, it asks for another one.
pub skip_comment-endless : (f : ℕ) (s : Stream) → Avoids b'\n' s.rest → skip_comment f s ≡ running
skip_comment-endless f s a = endless_fields f s.before s.rest s.eofbit s.failbit a
