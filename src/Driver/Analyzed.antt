-- ===== src/Driver/Analyzed.antt =====
-- What the analyzer leaves is what the code generator asks for.
use jmm_llvm.Common.Types.{VType}
use jmm_llvm.Prelude.{
  List, ap, ℕ, Bool, true, [], ◌∷◌, Bytes, bytes_eq, ◌≡◌, refl, subst, sym, ◌∙◌, arith,
}
use jmm_llvm.Common.Symbol.{func_symbol}
use jmm_llvm.Common.Outcome.{Outcome, Ensures, returns, exits, ◌⟫◌, Logger, ◌>>=◌}
use jmm_llvm.Common.Ast.{Program, gvar_decl, func_decl, mfunc_decl}
use jmm_llvm.Symtab.{SymbolTable, insert, insert_map, find}
use jmm_llvm.Semantic.Program.{ShapedDecl, Every, mains}
use jmm_llvm.Semantic.Functions.Declared.{AllDeclared}
use jmm_llvm.Semantic.Functions
use jmm_llvm.Semantic.Functions.Whole
use jmm_llvm.Semantic.Globals.Frame
use jmm_llvm.Semantic.Types
use jmm_llvm.Semantic.Types.Whole.{visit_sound}
use jmm_llvm.Semantic.Analyzer.{analyzer, analyze}
use jmm_llvm.Semantic.Analyzer.Sound.{IsFresh, analyzer-IsFresh}
use jmm_llvm.Codegen.Laws.{Distinct}
use jmm_llvm.Codegen.Globals.Provided.{Declared, names}
use jmm_llvm.Codegen.Runtime.Built.{runtime}
use jmm_llvm.Codegen.Program.Scope.{ScopedDecl, functions_of, globals_of}
use jmm_llvm.Codegen.Program.Generate.{member}
use jmm_llvm.Common.Void.{no_voids}
use jmm_llvm.Driver.Reach.{Backed, AllBacked}
use jmm_llvm.Driver.Kept.{AllKept, Kept-names, Kept-functions_of, Kept-globals_of, Kept-Declared}
use jmm_llvm.Driver.Declarations.{visit-ScopedDecl}
use jmm_llvm.Driver.Globals.{visit-Leaves, program-Supports}

-- The program `ds` that the analyzer makes of `p`.
pub record Compiles (p ds : Program) : Type 0 where
  pub names_same : names ds ≡ names p
  pub distinct : Distinct (names ds)
  pub declared : Every Declared ds
  pub scoped : Every (ScopedDecl (functions_of (member runtime) ds) (globals_of ds)) ds
  pub one_main : mains ds ≡ 1

alongside :
    {A : Type 0} {P Q : A → Type 0} {r : Outcome A}
    → Ensures P r
    → Ensures Q r
    → Ensures (λ a. P a × Q a) r
alongside (returns h) (returns k) = returns (h, k)
alongside exits exits = exits

rts_known :
    (rts : Bytes → Bool) (ds : Program) (x : Bytes) → rts x ≡ true → functions_of rts ds x ≡ true
rts_known rts [] x e = e
rts_known rts (gvar_decl _ _ _ _ ∷ ds) x e = rts_known rts ds x e
rts_known rts (func_decl _ y _ _ _ _ ∷ ds) x e = let rest = rts_known rts ds x e in ground arith
rts_known rts (mfunc_decl _ y _ _ ∷ ds) x e = let rest = rts_known rts ds x e in ground arith

-- The functions of the table that the constructor leaves are those of the runtime.
abbrev RuntimeBacked : SymbolTable → Type 0
RuntimeBacked t =
    (known : Bytes → Bool) (live : ℕ → Bool)
    → ((x : Bytes) → member runtime x ≡ true → known x ≡ true)
    → AllBacked known live t.m_rts

analyzer-RuntimeBacked : (l : Logger) → Ensures RuntimeBacked (analyzer l)
unfolding analyzer insert insert_map find bytes_eq
analyzer-RuntimeBacked l = returns λ known live k. (
  func known live _ _ _ _ _ (k _ refl),
  (
    func known live _ _ _ _ _ (k _ refl),
    (
      func known live _ _ _ _ _ (k _ refl),
      (
        func known live _ _ _ _ _ (k _ refl),
        (func known live _ _ _ _ _ (k _ refl), (func known live _ _ _ _ _ (k _ refl), tt)),
      ),
    ),
  ),
)
  where
    func :
        (known : Bytes → Bool) (live : ℕ → Bool) (x : Bytes) (a : VType) (ps : List VType)
        (line n : ℕ)
        → known x ≡ true
        → Backed known live x (func_symbol a ps line n)
    func known live x a ps line n e = record { variable = λ v. cc; function = λ _. e }

kept-ScopedDecl :
    (p ds : Program)
    → AllKept p ds
    → Every (ScopedDecl (functions_of (member runtime) p) (globals_of p)) ds
    → Every (ScopedDecl (functions_of (member runtime) ds) (globals_of ds)) ds
kept-ScopedDecl p ds k s =
    let functions : functions_of (member runtime) p ≡ functions_of (member runtime) ds =
      λ i x. sym (Kept-functions_of (member runtime) k x) i in
    let variables : globals_of p ≡ globals_of ds = λ i a. sym (Kept-globals_of k a) i in
    subst (λ known. Every (ScopedDecl known (globals_of ds)) ds) functions
      (subst (λ live. Every (ScopedDecl (functions_of (member runtime) p) live) ds) variables s)

analyze-fresh :
    (p : Program) (t : SymbolTable)
    → IsFresh t
    → RuntimeBacked t
    → Every ShapedDecl p
    → no_voids p ≡ true
    → Ensures (Compiles p) (analyze p t)
unfolding analyze
analyze-fresh p t fresh rts shaped full =
    alongside (Frame.visit-Entered p t (subst AllDeclared (sym fresh.globals) tt) shaped)
      (visit-Leaves p t)
    ⟫ λ (p₁, t₁) ((i, m, e, g, entered, k), leaves).
        let table_same = ap (λ (t : SymbolTable). t.m_global) (sym leaves.framed ∙ e) in
        rw e (
          alongside
            (Whole.visit-Checked (Functions.new_visitor (record t { made = i; m_global = m })) p₁
              (record {
                rts = fresh.rts;
                globals = g;
                formals = fresh.formals;
                blocks = fresh.blocks;
                loops = refl;
              })
              refl entered)
            (visit-ScopedDecl (functions_of (member runtime) p₁)
              (Functions.new_visitor (record t { made = i; m_global = m })) (globals_of p₁) p₁
              (record {
                rts = rts _ _ (rts_known (member runtime) p₁);
                globals = subst (AllBacked _ _) table_same (
                    leaves.backed _ _ (program-Supports (member runtime) p₁)
                      (subst (AllBacked _ _) (sym fresh.globals) tt));
                formals = fresh.formals;
                blocks = fresh.blocks;
              })
              entered)
          ⟫ λ (ds, v) ((checked, one, one'), (kept, scoped)).
              visit_sound ds Types.new_visitor checked ⟫ λ _ typed. returns (record {
                names_same = Kept-names kept ∙ leaves.names_same;
                distinct =
                    subst Distinct (sym (Kept-names kept ∙ leaves.names_same)) leaves.distinct;
                declared = Kept-Declared kept (leaves.declared full);
                scoped =
                    kept-ScopedDecl p₁ ds kept (scoped checked typed (leaves.voids_same ∙ full));
                one_main = one';
              }))

-- On a program whose expressions are shaped and in which no variable is `void`, the analyzer ends the process with an
-- error or returns a tree with the same names, all different, of declarations that the code generator
-- can enter and of bodies scoped over the program's functions, the runtime's and the global variables,
-- with one main function.
pub analyze-Compiles :
    (l : Logger) (p : Program)
    → Every ShapedDecl p
    → no_voids p ≡ true
    → Ensures (Compiles p) (analyzer l >>= λ t. analyze p t)
analyze-Compiles l p shaped full =
    alongside (analyzer-IsFresh l) (analyzer-RuntimeBacked l) ⟫ λ t (fresh, rts).
    analyze-fresh p t fresh rts shaped full
