-- ===== src/Semantic/Analyzer/Sound.antt =====
-- The analyzer as a whole.
use jmm_llvm.Symtab.{insert, insert_map, find}
use jmm_llvm.Prelude.{bytes_eq}
use jmm_llvm.Common.Outcome.{Logger, ◌>>=◌}
use jmm_llvm.Semantic.Functions.Declared.{func_symbol-IsDeclared}
use jmm_llvm.Prelude.{sym, subst, [], ◌≡◌, refl}
use jmm_llvm.Common.Outcome.{Ensures, returns, ◌⟫◌}
use jmm_llvm.Common.Ast.{Program}
use jmm_llvm.Symtab.{SymbolTable}
use jmm_llvm.Semantic.Program.{ShapedDecl, Checked, DeclTyped, Every, mains}
use jmm_llvm.Semantic.Functions.Declared.{AllDeclared}
use jmm_llvm.Semantic.Functions.Whole
use jmm_llvm.Semantic.Globals.Frame
use jmm_llvm.Semantic.Types.Whole.{visit_sound}
use jmm_llvm.Semantic.Functions
use jmm_llvm.Semantic.Types
use jmm_llvm.Semantic.Analyzer.{analyzer, analyze}

-- What the analyzer guarantees of the tree that it hands to the code generator.
pub record Analyzed (ds : Program) : Type 0 where
  pub checked : Every Checked ds
  pub typed : Every DeclTyped ds
  pub one_main : mains ds ≡ 1

-- The table that the constructor leaves.
pub record IsFresh (t : SymbolTable) : Type 0 where
  pub rts : AllDeclared t.m_rts
  pub globals : t.m_global ≡ []
  pub formals : t.m_func ≡ []
  pub blocks : t.m_blocks ≡ []

pub analyzer-IsFresh : (l : Logger) → Ensures IsFresh (analyzer l)
unfolding analyzer insert insert_map find bytes_eq
analyzer-IsFresh l = returns (record {
  rts = (
    func_symbol-IsDeclared _ _ _ _,
    (
      func_symbol-IsDeclared _ _ _ _,
      (
        func_symbol-IsDeclared _ _ _ _,
        (
          func_symbol-IsDeclared _ _ _ _,
          (func_symbol-IsDeclared _ _ _ _, (func_symbol-IsDeclared _ _ _ _, tt)),
        ),
      ),
    ),
  );
  globals = refl;
  formals = refl;
  blocks = refl;
})

analyze-fresh :
    (ds : Program) (t : SymbolTable)
    → IsFresh t
    → Every ShapedDecl ds
    → Ensures Analyzed (analyze ds t)
unfolding analyze
analyze-fresh ds t fresh shaped =
    Frame.visit-Entered ds t (subst AllDeclared (sym fresh.globals) tt) shaped
    ⟫ λ (ds₁, t₁) (i, m, e, g, entered, k). rw e (
        Whole.visit-Checked (Functions.new_visitor (record t { made = i; m_global = m })) ds₁
          (record {
            rts = fresh.rts;
            globals = g;
            formals = fresh.formals;
            blocks = fresh.blocks;
            loops = refl;
          })
          refl entered
        ⟫ λ (ds₂, v) (checked, one, one'). visit_sound ds₂ Types.new_visitor checked ⟫ λ _ typed.
            returns (record { checked = checked; typed = typed; one_main = one' }))

-- On a program whose expressions are shaped (no right-hand side is missing, unary nodes hold unary
-- operators), `analyze` ends the process with an error or returns a tree with one main function, in
-- which each name is resolved to a symbol of the right kind, each `break` stands in a loop and each body
-- has the types that the rules ask for. It neither faults nor runs on.
pub analyze-Analyzed :
    (l : Logger) (ds : Program)
    → Every ShapedDecl ds
    → Ensures Analyzed (analyzer l >>= λ t. analyze ds t)
analyze-Analyzed l ds shaped = analyzer-IsFresh l ⟫ λ t fresh. analyze-fresh ds t fresh shaped
