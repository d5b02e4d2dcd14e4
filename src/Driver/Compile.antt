-- ===== src/Driver/Compile.antt =====
-- A run of the compiler, from the tokens to the module.
use jmm_llvm.Prelude.{
  arith, ◌⊎◌, inl, inr, ◌||◌, bytes_eq, inr, inl, ◌⊎◌, ℕ, ◌+◌, ◌<◌, Bool, true, false, some, none,
  Option, List, [], ◌∷◌, ◌++◌, Bytes, ◌≡◌, ◌≢◌, refl, subst, sym,
}
use jmm_llvm.Common.Outcome.{
  Outcome, ok, exit, ◌>>=◌, exits, Ensures-ok, Ensures, returns, ◌⟫◌, weaken,
}
use jmm_llvm.Common.Types.{VType}
use jmm_llvm.Common.Symbol.{Symbol}
use jmm_llvm.Common.Plain.{plains-no_voids}
use jmm_llvm.Codegen.Scoped.{with_address-grows}
use jmm_llvm.Semantic.Program.{Every}
use jmm_llvm.Common.Ast.{Program, Decl, ParamDecl, Children, gvar_decl, func_decl, mfunc_decl}
use jmm_llvm.Lexer.State.{Lexer}
use jmm_llvm.Parser.Declarations.{start, parse}
use jmm_llvm.Parser.Enough.{Source, size}
use jmm_llvm.Parser.Enough.Programs.{parse-Ends, start-Ends}
use jmm_llvm.Frontend.{missing_rhs, program-Shaped, left, right}
use jmm_llvm.Codegen.Llvm.{Llvm}
use jmm_llvm.Codegen.State.{Codegen}
use jmm_llvm.Codegen.Laws.{Within, Distinct, Free, BuilderLaws, BlockLaws, ModuleLaws}
use jmm_llvm.Codegen.Globals.Provided.{names, Declared}
use jmm_llvm.Codegen.Runtime.Built.{taken}
use jmm_llvm.Codegen.Program.Generate.{
  generate-Generated, member, all_differ, all_differ-Distinct, apart,
}
use jmm_llvm.Codegen.Program.Scope.{globals_of}
use jmm_llvm.Driver.{compile}
use jmm_llvm.Semantic.Analyzer.{analyzer, analyze}
use jmm_llvm.Driver.Analyzed.{analyze-Compiles}

Within-append : {x : Bytes} (xs ys : List Bytes) → Within x (xs ++ ys) → Within x xs ⊎ Within x ys
Within-append [] ys w = inr w
Within-append (x ∷ xs) ys Within.here = inl Within.here
Within-append (x ∷ xs) ys (Within.there w) = elim (Within-append xs ys w) [
  | inl h ↦ inl (Within.there h)
  | inr h ↦ inr h
]

Distinct-append :
    (xs ys : List Bytes)
    → Distinct xs
    → Distinct ys
    → ((x y : Bytes) → Within x xs → Within y ys → x ≢ y)
    → Distinct (xs ++ ys)
Distinct-append [] ys d e apart = e
Distinct-append (x ∷ xs) ys (Distinct.cons h d) e apart =
    Distinct.cons
      (λ b w. elim (Within-append xs ys w) [ inl v ↦ h b v | inr v ↦ apart x b Within.here v ])
      (Distinct-append xs ys d e λ a b v w. apart a b (Within.there v) w)

taken_differ : all_differ taken ≡ true
unfolding bytes_eq
taken_differ = refl

-- Whether one of the names is empty or taken by the runtime.
abbrev pub any_taken : List Bytes → Bool
any_taken [] = false
any_taken (x ∷ xs) = member ([] ∷ taken) x || any_taken xs

not_taken :
    (xs : List Bytes) (x : Bytes)
    → any_taken xs ≡ false
    → Within x xs
    → member ([] ∷ taken) x ≡ false
not_taken [] x e w = elim w [ ]
not_taken (x ∷ xs) _ e Within.here = left _ _ e
not_taken (y ∷ xs) x e (Within.there w) = not_taken xs x (right _ _ e) w

taken-Distinct : (xs : List Bytes) → any_taken xs ≡ false → Distinct xs → Distinct (taken ++ xs)
taken-Distinct xs e d =
    Distinct-append taken xs (all_differ-Distinct taken taken_differ) d
      λ x y v w p. apart y ([] ∷ taken) (not_taken xs y e w) x (Within.there v) (sym p)

empty_not_taken : member taken [] ≡ false
unfolding bytes_eq
empty_not_taken = refl

-- The names of the runtime are not empty, nor are those of a program that has no taken name.
all_spelled : (xs : List Bytes) (x : Bytes) → any_taken xs ≡ false → Within x (taken ++ xs) → x ≢ []
all_spelled xs x e w p = elim (Within-append taken xs w) [
  | inl v ↦ apart [] taken empty_not_taken x v (sym p)
  | inr v ↦ apart x ([] ∷ taken) (not_taken xs x e v) [] Within.here p
]

-- A run that returns, with the equation that says so.
remember :
    {A : Type 0} {P : A → Type 0} {r : Outcome A} → Ensures P r → Ensures (λ a. P a × (r ≡ ok a)) r
remember (returns h) = returns (h, refl)
remember exits = exits

rebind :
    {A B C : Type 0} {Q : C → Type 0} (r : Outcome A) (f : A → Outcome B) (g : B → Outcome C)
    → Ensures Q ((r >>= f) >>= g)
    → Ensures Q (r >>= λ a. f a >>= g)
rebind (ok a) f g h = h
rebind (exit e) f g h = h
rebind Outcome.fault f g h = elim h [ ]
rebind Outcome.running f g h = elim h [ ]

-- A global variable has a symbol, and its symbol a value.
pub data Valued (llvm : Llvm) (values : ℕ → Option llvm.Value) : Decl → Type 0 where
  gvar :
      {line : ℕ} {x : Bytes} {a : VType} {s : Symbol} (v : llvm.Value)
      → values s.address ≡ some v
      → Valued llvm values (gvar_decl line x a (some s))
  func :
      {line : ℕ} {x : Bytes} {a : VType} {ps : List ParamDecl} {body : Children} {o : Option Symbol}
      → Valued llvm values (func_decl line x a ps body o)
  main :
      {line : ℕ} {x : Bytes} {body : Children} {o : Option Symbol}
      → Valued llvm values (mfunc_decl line x body o)

all_Valued :
    (llvm : Llvm) (values : ℕ → Option llvm.Value) (ds : Program)
    → Every Declared ds
    → ((a : ℕ) → globals_of ds a ≡ true → (v : llvm.Value) × (values a ≡ some v))
    → Every (Valued llvm values) ds
all_Valued llvm values [] hs k = tt
all_Valued llvm values (gvar_decl line x a (some s) ∷ ds) (Declared.gvar n, hs) k = (
  (let (v, e) = k s.address (ground arith) in Valued.gvar v e),
  all_Valued llvm values ds hs (λ b e. k b (with_address-grows s.address (globals_of ds) b e)),
)
all_Valued llvm values (gvar_decl line x a none ∷ ds) (h, hs) k = elim h [ ]
all_Valued llvm values (func_decl line x a ps body o ∷ ds) (h, hs) k =
    (Valued.func, all_Valued llvm values ds hs k)
all_Valued llvm values (mfunc_decl line x body o ∷ ds) (h, hs) k =
    (Valued.main, all_Valued llvm values ds hs k)

module _ {I : Type 0} (s : Source I) (llvm : Llvm) where
  start-parse :
      (f : ℕ) (l : Lexer I) (p : Program) (l' : Lexer I)
      → start s.lex f l ≡ ok (p, l')
      → parse s.lex f l ≡ ok p
  unfolding parse
  start-parse f l p l' e = rw e refl

  -- What the compiler leaves: no loop is open, and of the tree that the analyzer makes of the parsed
  -- program, which has the same names, each global variable has a symbol and its symbol a value.
  abbrev pub Compiled : ℕ → Lexer I → Codegen llvm → Type 0
  Compiled f l c =
      (c.while_context ≡ [])
      × (p : Program) × (l' : Lexer I) × (ds : Program) × (start s.lex f l ≡ ok (p, l'))
      × ((analyzer l'.logger >>= λ t. analyze p t) ≡ ok ds)
      × (names ds ≡ names p)
      × Every (Valued llvm c.values) ds

  -- For every LLVM that keeps the laws of its documentation, from an empty module and with five units of fuel
  -- more than there are tokens, the compiler ends the process with an error or returns with no loop open and
  -- a value for the symbol of each global variable in the tree that the analyzer made of the program that was
  -- parsed, when this has all its right-hand sides and no name that is empty or that the runtime takes. No
  -- stage reads a null pointer, an unset value or an empty stack, and none runs on. The lexer must go on from
  -- every good input and come closer to the end of the file with each other token.
  pub compile-Compiled :
      (laws : BuilderLaws llvm) (ends : BlockLaws llvm) (modules : ModuleLaws llvm) (f : ℕ)
      (l : Lexer I) (m : llvm.State)
      → s.Good l.input
      → size s l + 4 < f
      → ((x : Bytes) → x ≢ [] → Free llvm x m)
      → ((p : Program)
          → parse s.lex f l ≡ ok p
          → (missing_rhs p ≡ false) × (any_taken (names p) ≡ false))
      → Ensures (Compiled f l) (compile s.lex llvm f l m)
  unfolding compile
  compile-Compiled laws ends modules f l m g k empty fits =
      remember (start-Ends s f l g k) ⟫ λ (p, l') (_, e).
      let parsed = start-parse f l p l' e in
      let (tree, full) = Ensures-ok (parse-Ends s f l g k) parsed in
      let (whole, untaken) = fits p parsed in
      rebind (analyzer l'.logger) (λ t. analyze p t) _
        (remember
            (analyze-Compiles l'.logger p (program-Shaped p tree whole) (plains-no_voids p full))
          ⟫ λ ds (h, made).
              let free = subst (λ xs. any_taken xs ≡ false) (sym h.names_same) untaken in
              weaken
                (λ c (closed, values). (
                  closed,
                  p,
                  l',
                  ds,
                  e,
                  made,
                  h.names_same,
                  all_Valued llvm c.values ds h.declared values,
                ))
                (generate-Generated llvm laws ends modules ds m l'.logger
                  (taken-Distinct (names ds) free h.distinct)
                  (λ x w. empty x (all_spelled (names ds) x free w)) h.declared h.scoped
                  h.one_main))
