-- ===== src/Codegen/Program/Generate.antt =====
-- The code generator as the driver runs it: the runtime first, then the program.
use jmm_llvm.Prelude.{
  ◌≢◌, sym, ℕ, Bool, true, false, Bool-cases, inl, inr, some, List, [], ◌∷◌, ◌++◌, Bytes, bytes_eq,
  bytes_eq_iff, ◌≡◌, refl, subst, arith, if◌then◌else◌,
}
use jmm_llvm.Common.Ast.{Program}
use jmm_llvm.Common.Outcome.{sure, Ensures, ◌⟫◌, Logger}
use jmm_llvm.Semantic.Program.{Every, mains}
use jmm_llvm.Codegen.Llvm.{Llvm}
use jmm_llvm.Codegen.Laws.{Within, Distinct, Free, BuilderLaws, BlockLaws, ModuleLaws}
use jmm_llvm.Codegen.Globals.Provided.{Declared, names}
use jmm_llvm.Codegen.Runtime.{new_codegen}
use jmm_llvm.Codegen.Runtime.Built.{taken, runtime, build_rts-Fresh}
use jmm_llvm.Codegen.Program.Scope.{ScopedDecl, functions_of, globals_of}
use jmm_llvm.Codegen.Program.Whole.{visit_root-Generated}
use jmm_llvm.Codegen.Program.{generate}

abbrev pub member : List Bytes → Bytes → Bool
member [] x = false
member (y ∷ ys) x = if bytes_eq y x then true else member ys x

member-Within : (ys : List Bytes) (x : Bytes) → member ys x ≡ true → Within x ys
member-Within [] x e = ground arith
member-Within (y ∷ ys) x e = elim (Bool-cases (bytes_eq y x)) [
  | inl same ↦ subst (λ z. Within z (y ∷ ys)) ((bytes_eq_iff y x).0 same) Within.here
  | inr other ↦ Within.there (member-Within ys x (ground arith))
]

-- Whether no name is twice in the list.
abbrev pub all_differ : List Bytes → Bool
all_differ [] = true
all_differ (x ∷ xs) = if member xs x then false else all_differ xs

pub apart : (x : Bytes) (xs : List Bytes) → member xs x ≡ false → (b : Bytes) → Within b xs → x ≢ b
apart x [] e b w = elim w [ ]
apart x (y ∷ xs) e _ Within.here = λ d. ground (arith, (bytes_eq_iff y x).1 (sym d))
apart x (y ∷ xs) e b (Within.there w) = apart x xs (ground arith) b w

pub all_differ-Distinct : (xs : List Bytes) → all_differ xs ≡ true → Distinct xs
all_differ-Distinct [] e = Distinct.nil
all_differ-Distinct (x ∷ xs) e =
    Distinct.cons (apart x xs (ground arith)) (all_differ-Distinct xs (ground arith))

-- A program as the analyzer leaves it, whose names differ from one another and from those that the
-- runtime takes, in a module where these are free (not empty, and no function or variable has them,
-- be it private); its bodies are scoped over its functions, the runtime's and its global variables, and
-- one function is the main function. The generator ends the
-- process with an error, or returns with no loop open and a value for each global variable. It reads
-- no null pointer, no unset value and no empty stack.
pub generate-Generated :
    (llvm : Llvm) (laws : BuilderLaws llvm) (ends : BlockLaws llvm) (modules : ModuleLaws llvm)
    (ds : Program) (s : llvm.State) (l : Logger)
    → Distinct (taken ++ names ds)
    → ((x : Bytes) → Within x (taken ++ names ds) → Free llvm x s)
    → Every Declared ds
    → Every (ScopedDecl (functions_of (member runtime) ds) (globals_of ds)) ds
    → mains ds ≡ 1
    → Ensures
        (λ c.
          (c.while_context ≡ [])
          × ((a : ℕ) → globals_of ds a ≡ true → (v : llvm.Value) × (c.values a ≡ some v)))
        (generate llvm ds s l)
unfolding generate new_codegen
generate-Generated llvm laws ends modules ds s l distinct free declared scoped one =
    sure (
      build_rts-Fresh llvm modules (names ds) _
        (record { functions = λ x w. elim w [ ]; free = free; distinct = distinct; empty = refl }))
    ⟫ λ c h.
        visit_root-Generated llvm laws ends modules (member runtime) ds c
          (λ x e. h.functions x (member-Within runtime x e)) h.empty declared h.distinct h.free
          scoped one
