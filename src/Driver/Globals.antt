-- ===== src/Driver/Globals.antt =====
-- The globals' visitor: the names of the program that it returns differ, and the global table holds the
-- program's functions and variables.
use jmm_llvm.Prelude.{
  ◌&&◌, ap₂, inr, inl, Bool-cases, ◌≢◌, ℕ, suc, Bool, true, none, some, [], ◌∷◌, Bytes, bytes_eq,
  bytes_eq_iff, map, length-map, ◌≡◌, refl, not, arith, if◌then◌else◌,
}
use jmm_llvm.Common.Symbol.{Symbol, is_var, var_symbol, func_symbol, main_symbol}
use jmm_llvm.Common.Outcome.{Ensures, returns, ◌⟫◌}
use jmm_llvm.Common.Ast.{ParamDecl, Decl, gvar_decl, func_decl, mfunc_decl, Program}
use jmm_llvm.Symtab.{Map, SymbolTable, find, insert, query_scope}
use jmm_llvm.Symtab.Lookup.{insert_map_free}
use jmm_llvm.Semantic.Program.{Every}
use jmm_llvm.Semantic.Globals.{visit, visit_decl}
use jmm_llvm.Semantic.Globals.Frame.{with_globals, check_free_ends}
use jmm_llvm.Codegen.Laws.{Within, Distinct}
use jmm_llvm.Codegen.Scoped.{with_address-grows}
use jmm_llvm.Codegen.Globals.Provided.{names, Declared, name_of}
use jmm_llvm.Codegen.Program.Scope.{functions_of, globals_of}
use jmm_llvm.Common.Void.{both, no_voids, not_void_lem, no_void_decl}
use jmm_llvm.Driver.Reach.{AllBacked, Grows, Backed}

-- What a declaration adds to the functions and the variables is among `known` and `live`.
abbrev Supports : (Bytes → Bool) → (ℕ → Bool) → Decl → Type 0
Supports known live (gvar_decl _ _ _ none) = Unit {0}
Supports known live (gvar_decl _ _ _ (some s)) = live s.address ≡ true
Supports known live (func_decl _ x _ _ _ _) = known x ≡ true
Supports known live (mfunc_decl _ x _ _) = known x ≡ true

Supports-Grows :
    {known known' : Bytes → Bool} {live live' : ℕ → Bool}
    → ((x : Bytes) → known x ≡ true → known' x ≡ true)
    → Grows live live'
    → (ds : Program) → Every (Supports known live) ds
    → Every (Supports known' live') ds
Supports-Grows k g [] s = tt
Supports-Grows k g (gvar_decl _ _ _ none ∷ ds) (s, ss) = (tt, Supports-Grows k g ds ss)
Supports-Grows k g (gvar_decl _ _ _ (some s) ∷ ds) (h, ss) =
    (g s.address h, Supports-Grows k g ds ss)
Supports-Grows k g (func_decl _ x _ _ _ _ ∷ ds) (h, ss) = (k x h, Supports-Grows k g ds ss)
Supports-Grows k g (mfunc_decl _ x _ _ ∷ ds) (h, ss) = (k x h, Supports-Grows k g ds ss)

bytes_eq_self : (x : Bytes) → bytes_eq x x ≡ true
bytes_eq_self x = (bytes_eq_iff x x).1 refl

named :
    (x y : Bytes) (rest : Bytes → Bool)
    → rest y ≡ true
    → (if bytes_eq x y then true else rest y) ≡ true
named x y rest e = ground arith

-- A program supports itself.
pub program-Supports :
    (rts : Bytes → Bool) (ds : Program) → Every (Supports (functions_of rts ds) (globals_of ds)) ds
program-Supports rts [] = tt
program-Supports rts (gvar_decl _ _ _ none ∷ ds) = (tt, program-Supports rts ds)
program-Supports rts (gvar_decl l x a (some s) ∷ ds) = (
  ground arith,
  Supports-Grows (λ x e. e) (with_address-grows s.address (globals_of ds)) ds
      (program-Supports rts ds),
)
program-Supports rts (func_decl l x a ps body o ∷ ds) = (
  rw (bytes_eq_self x) refl,
  Supports-Grows (λ y e. named x y (functions_of rts ds) e) (λ a e. e) ds (program-Supports rts ds),
)
program-Supports rts (mfunc_decl l x body o ∷ ds) = (
  rw (bytes_eq_self x) refl,
  Supports-Grows (λ y e. named x y (functions_of rts ds) e) (λ a e. e) ds (program-Supports rts ds),
)

-- The visit of a declaration enters one new name.
abbrev Adds : Decl → SymbolTable → Decl × SymbolTable → Type 0
Adds d t (d', t') =
    (n : ℕ) × (s : Symbol) × (t' ≡ with_globals t n ((name_of d, s) ∷ t.m_global))
    × (find (name_of d) t.m_global ≡ none)
    × (name_of d' ≡ name_of d)
    × (no_void_decl d' ≡ no_void_decl d)
    × (no_void_decl d ≡ true → Declared d')
    × ((known : Bytes → Bool) (live : ℕ → Bool)
        → Supports known live d'
        → Backed known live (name_of d) s)

decl_Adds : (d : Decl) (t : SymbolTable) → Ensures (Adds d t) (visit_decl d t)
unfolding visit_decl insert query_scope no_void_decl
decl_Adds (gvar_decl l x a o) t = check_free_ends is_var x l (find x t.m_global) ⟫ λ _ free.
    rw (insert_map_free x (var_symbol a l t.made) t.m_global free) (
      returns (
        suc t.made,
        var_symbol a l t.made,
        refl,
        free,
        refl,
        refl,
        (λ e. Declared.gvar (not_void_lem a e)),
        λ known live h. record { variable = λ _. h; function = λ e. cc },
      ))
decl_Adds (func_decl l x a ps body o) t =
    check_free_ends (λ s. not (is_var s)) x l (find x t.m_global) ⟫ λ _ free.
    rw
      (insert_map_free x (func_symbol a (map (λ (p : ParamDecl). p.type) ps) l t.made) t.m_global
        free)
      (returns (
        suc t.made,
        func_symbol a (map (λ (p : ParamDecl). p.type) ps) l t.made,
        refl,
        free,
        refl,
        refl,
        (λ e. Declared.func _ refl (length-map _ ps)),
        λ known live h. record { variable = λ e. cc; function = λ _. h },
      ))
decl_Adds (mfunc_decl l x body o) t =
    check_free_ends (λ s. not (is_var s)) x l (find x t.m_global) ⟫ λ _ free.
    rw (insert_map_free x (main_symbol l t.made) t.m_global free) (
      returns (
        suc t.made,
        main_symbol l t.made,
        refl,
        free,
        refl,
        refl,
        (λ e. Declared.main),
        λ known live h. record { variable = λ e. cc; function = λ _. h },
      ))

-- A name that is free behind an entry is another one, and was free.
other_free :
    (x y : Bytes) (s : Symbol) (m : Map) → find y ((x, s) ∷ m) ≡ none → (x ≢ y) × (find y m ≡ none)
unfolding find
other_free x y s m e = elim (Bool-cases (bytes_eq x y)) [
  | inl same ↦ ground arith
  | inr differ ↦ (λ p. ground (arith, bytes_eq_iff x y), ground arith)
]

-- What the pass leaves, from the table `t`.
pub record Leaves (ds : Program) (t : SymbolTable) (r : Program × SymbolTable) : Type 0 where
  pub made : ℕ
  pub table : Map
  pub framed : r.1 ≡ with_globals t made table
  pub names_same : names r.0 ≡ names ds
  pub distinct : Distinct (names ds)
  pub free : (x : Bytes) → Within x (names ds) → find x t.m_global ≡ none
  pub voids_same : no_voids r.0 ≡ no_voids ds
  pub declared : no_voids ds ≡ true → Every Declared r.0
  pub backed :
      (known : Bytes → Bool) (live : ℕ → Bool)
      → Every (Supports known live) r.0
      → AllBacked known live t.m_global
      → AllBacked known live table

Leaves-cons :
    (d d' : Decl) (ds : Program) (t : SymbolTable) (n : ℕ) (s : Symbol) {r : Program × SymbolTable}
    → name_of d' ≡ name_of d
    → no_void_decl d' ≡ no_void_decl d
    → (no_void_decl d ≡ true → Declared d')
    → ((known : Bytes → Bool) (live : ℕ → Bool)
        → Supports known live d'
        → Backed known live (name_of d) s)
    → find (name_of d) t.m_global ≡ none
    → Leaves ds (with_globals t n ((name_of d, s) ∷ t.m_global)) r
    → Leaves (d ∷ ds) t (d' ∷ r.0, r.1)
unfolding no_voids
Leaves-cons d d' ds t n s same void declared backed free h = record {
  made = h.made;
  table = h.table;
  framed = h.framed;
  names_same = ap₂ (λ x xs. x ∷ xs) same h.names_same;
  voids_same = ap₂ ◌&&◌ void h.voids_same;
  distinct = Distinct.cons (λ x w. (apart x w).0) h.distinct;
  free = all_free;
  declared = λ v. (declared (both _ _ v).0, h.declared (both _ _ v).1);
  backed = λ known live (k, ks) b. h.backed known live ks (backed known live k, b);
}
  where
    apart : (x : Bytes) → Within x (names ds) → (name_of d ≢ x) × (find x t.m_global ≡ none)
    apart x w = other_free (name_of d) x s t.m_global (h.free x w)

    all_free : (x : Bytes) → Within x (name_of d ∷ names ds) → find x t.m_global ≡ none
    all_free x Within.here = free
    all_free x (Within.there w) = (apart x w).1

-- The pass ends with an error or leaves a table that holds the program, whose names differ.
pub visit-Leaves : (ds : Program) (t : SymbolTable) → Ensures (Leaves ds t) (visit ds t)
unfolding visit
visit-Leaves [] t = returns (record {
  made = t.made;
  table = t.m_global;
  framed = refl;
  names_same = refl;
  voids_same = refl;
  distinct = Distinct.nil;
  free = λ x w. elim w [ ];
  declared = λ v. tt;
  backed = λ known live s b. b;
})
visit-Leaves (d ∷ ds) t = decl_Adds d t ⟫ λ (d', t₁) (n, s, e, free, same, void, declared, backed).
    rw e (
      visit-Leaves ds (with_globals t n ((name_of d, s) ∷ t.m_global)) ⟫ λ (ds', t') h.
      returns (Leaves-cons d d' ds t n s same void declared backed free h))
