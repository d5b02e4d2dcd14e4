-- ===== src/Semantic/Globals/Recorded.antt =====
-- What `GlobalsVisitor` enters into the table: each declaration's name is bound to its new symbol.
use jmm_llvm.Prelude.{
  suc, some, none, Option, List, ℕ, Bytes, bytes_eq_iff, [], ◌∷◌, ◌≡◌, refl, map, not, arith,
}
use jmm_llvm.Common.Types.{VType}
use jmm_llvm.Common.Symbol.{Symbol, is_var, var_symbol, func_symbol, main_symbol}
use jmm_llvm.Common.Outcome.{Ensures, returns, ◌⟫◌}
use jmm_llvm.Common.Ast.{ParamDecl, Children, Decl, gvar_decl, func_decl, mfunc_decl, Program}
use jmm_llvm.Symtab.{Map, SymbolTable, find, insert, query_scope}
use jmm_llvm.Symtab.Lookup.{insert_map_free}
use jmm_llvm.Semantic.Globals.{visit_decl, visit}
use jmm_llvm.Semantic.Globals.Frame.{with_globals, check_free_ends}

-- The second declaration is the first with its symbol, which has its kind, its type, the types of its
-- parameters and its line; `m` binds the name to this symbol.
pub data Recorded (m : Map) : Decl → Decl → Type 0 where
  gvar :
      {l : ℕ} {x : Bytes} {a : VType} {o : Option Symbol} (n : ℕ)
      → find x m ≡ some (var_symbol a l n)
      → Recorded m (gvar_decl l x a o) (gvar_decl l x a (some (var_symbol a l n)))
  func :
      {l : ℕ} {x : Bytes} {a : VType} {ps : List ParamDecl} {body : Children} {o : Option Symbol}
      (n : ℕ)
      → find x m ≡ some (func_symbol a (map (λ (p : ParamDecl). p.type) ps) l n)
      → Recorded m
          (func_decl l x a ps body o)
          (func_decl l x a ps body (some (func_symbol a (map (λ (p : ParamDecl). p.type) ps) l n)))
  main :
      {l : ℕ} {x : Bytes} {body : Children} {o : Option Symbol} (n : ℕ)
      → find x m ≡ some (main_symbol l n)
      → Recorded m (mfunc_decl l x body o) (mfunc_decl l x body (some (main_symbol l n)))

pub data AllRecorded (m : Map) : Program → Program → Type 0 where
  nil : AllRecorded m [] []
  cons :
      {d d' : Decl} {ds ds' : Program}
      → Recorded m d d'
      → AllRecorded m ds ds'
      → AllRecorded m (d ∷ ds) (d' ∷ ds')

-- Each name that `m` binds is bound to the same symbol in `m'`.
abbrev pub Kept : Map → Map → Type 0
Kept m m' = (x : Bytes) (s : Symbol) → find x m ≡ some s → find x m' ≡ some s

Recorded-Kept : {m m' : Map} {d d' : Decl} → Kept m m' → Recorded m d d' → Recorded m' d d'
Recorded-Kept k (Recorded.gvar n e) = Recorded.gvar n (k _ _ e)
Recorded-Kept k (Recorded.func n e) = Recorded.func n (k _ _ e)
Recorded-Kept k (Recorded.main n e) = Recorded.main n (k _ _ e)

-- An entry in front binds its name.
entry_found : (x : Bytes) (s : Symbol) (m : Map) → find x ((x, s) ∷ m) ≡ some s
unfolding find
entry_found x s m = rw ((bytes_eq_iff x x).1 refl) refl

-- An entry for a free name keeps the others.
entry-Kept : (x : Bytes) (s : Symbol) (m : Map) → find x m ≡ none → Kept m ((x, s) ∷ m)
unfolding find
entry-Kept x s m free y r e = ground (arith, bytes_eq_iff x y)

-- What the visit of one declaration leaves.
abbrev Enters : Decl → SymbolTable → Decl × SymbolTable → Type 0
Enters d t (d', t') =
    (n : ℕ) × (m : Map) × (t' ≡ with_globals t n m) × Kept t.m_global m × Recorded m d d'

decl_Enters : (d : Decl) (t : SymbolTable) → Ensures (Enters d t) (visit_decl d t)
unfolding visit_decl insert query_scope
decl_Enters (gvar_decl l x a o) t = check_free_ends is_var x l (find x t.m_global) ⟫ λ _ free.
    let s = var_symbol a l t.made in
    rw (insert_map_free x s t.m_global free) (
      returns (
        suc t.made,
        (x, s) ∷ t.m_global,
        refl,
        entry-Kept x s t.m_global free,
        Recorded.gvar t.made (entry_found x s t.m_global),
      ))
decl_Enters (func_decl l x a ps body o) t =
    check_free_ends (λ s. not (is_var s)) x l (find x t.m_global) ⟫ λ _ free.
    let s = func_symbol a (map (λ (p : ParamDecl). p.type) ps) l t.made in
    rw (insert_map_free x s t.m_global free) (
      returns (
        suc t.made,
        (x, s) ∷ t.m_global,
        refl,
        entry-Kept x s t.m_global free,
        Recorded.func t.made (entry_found x s t.m_global),
      ))
decl_Enters (mfunc_decl l x body o) t =
    check_free_ends (λ s. not (is_var s)) x l (find x t.m_global) ⟫ λ _ free.
    let s = main_symbol l t.made in
    rw (insert_map_free x s t.m_global free) (
      returns (
        suc t.made,
        (x, s) ∷ t.m_global,
        refl,
        entry-Kept x s t.m_global free,
        Recorded.main t.made (entry_found x s t.m_global),
      ))

-- The pass ends the process with an error, or changes the global scope and the count of symbols made
-- alone: it returns the program with a symbol in each declaration, with its kind, type, parameters and
-- line, the table binds each declared name to this symbol, and the names that were bound stay bound to
-- the same symbols.
pub visit-Recorded :
    (ds : Program) (t : SymbolTable)
    → Ensures
        (λ (ds', t').
          (n : ℕ) × (m : Map) × (t' ≡ with_globals t n m)
          × Kept t.m_global m
          × AllRecorded m ds ds')
        (visit ds t)
unfolding visit
visit-Recorded [] t = returns (t.made, t.m_global, refl, (λ x s e. e), AllRecorded.nil)
visit-Recorded (d ∷ ds) t = decl_Enters d t ⟫ λ (d', t₁) (i, m, e, k, r). rw e (
    visit-Recorded ds (with_globals t i m) ⟫ λ (ds', t₂) (i', m', e', k', rs).
    returns (i', m', e', (λ x s h. k' x s (k x s h)), AllRecorded.cons (Recorded-Kept k' r) rs))
