-- ===== src/Driver/Reach.antt =====
-- Tables in which every variable has one of the addresses `live` and every function one of the names
-- `known`: what the code generator asks of an expression holds of one that was resolved by such a table.
use jmm_llvm.Prelude.{
  ℕ, Bool, true, false, Option, some, List, [], ◌∷◌, ◌++◌, Bytes, bytes_eq, bytes_eq_iff, ◌≡◌, refl,
  subst, arith, Bool-cases, Option-cases, inl, inr,
}
use jmm_llvm.Common.Types.{VType}
use jmm_llvm.Common.Symbol.{Symbol, is_var}
use jmm_llvm.Common.Ast.{id_expr, Expr, Actuals}
use jmm_llvm.Symtab.{Map, SymbolTable, find, insert_map}
use jmm_llvm.Symtab.Lookup.{
  binding, environment, flatten_blocks, query-environment, insert_map_free, insert_map_taken,
}
use jmm_llvm.Semantic.Rules.{Resolves, ResolvesAll, HasType, HaveTypes}
use jmm_llvm.Codegen.Scoped.{ScopedExpr, AllScoped}

abbrev pub Grows : (ℕ → Bool) → (ℕ → Bool) → Type 0
Grows live after = (a : ℕ) → live a ≡ true → after a ≡ true

module _ (known : Bytes → Bool) where
  pub record Backed (live : ℕ → Bool) (x : Bytes) (s : Symbol) : Type 0 where
    pub variable : is_var s ≡ true → live s.address ≡ true
    pub function : is_var s ≡ false → known x ≡ true

  abbrev pub AllBacked : (ℕ → Bool) → Map → Type 0
  AllBacked live [] = Unit {0}
  AllBacked live ((k, s) ∷ m) = Backed live k s × AllBacked live m

  find-Backed :
      {live : ℕ → Bool} (x : Bytes) (m : Map) {s : Symbol}
      → AllBacked live m
      → find x m ≡ some s
      → Backed live x s
  unfolding find
  find-Backed x [] b e = cc
  find-Backed {live} x ((k, r) ∷ m) {s} (b, bs) e = elim (Bool-cases (bytes_eq k x)) [
    | inl same ↦
        subst (λ k. Backed live k s) ((bytes_eq_iff k x).0 same)
          (subst (λ r. Backed live k r) (ground arith) b)
    | inr differ ↦ find-Backed x m bs (ground arith)
  ]

  pub AllBacked-append :
      (live : ℕ → Bool) (m m' : Map)
      → AllBacked live m
      → AllBacked live m'
      → AllBacked live (m ++ m')
  AllBacked-append live [] m' b b' = b'
  AllBacked-append live ((k, s) ∷ m) m' (b, bs) b' = (b, AllBacked-append live m m' bs b')

  pub enter-AllBacked :
      (live : ℕ → Bool) (b : Map) (bs : List Map)
      → AllBacked live b
      → AllBacked live (flatten_blocks bs)
      → AllBacked live (flatten_blocks (b ∷ bs))
  unfolding flatten_blocks
  enter-AllBacked live b bs = AllBacked-append live b (flatten_blocks bs)

  pub AllBacked-Grows :
      {live after : ℕ → Bool} → Grows live after → (m : Map) → AllBacked live m → AllBacked after m
  AllBacked-Grows g [] b = tt
  AllBacked-Grows g ((k, s) ∷ m) (b, bs) = (
    record { variable = λ v. g s.address (b.variable v); function = b.function },
    AllBacked-Grows g m bs,
  )

  pub insert_map-AllBacked :
      {live : ℕ → Bool} (x : Bytes) (s : Symbol) (m : Map)
      → Backed live x s
      → AllBacked live m
      → AllBacked live (insert_map x s m).0
  insert_map-AllBacked x s m b bs = elim (Option-cases (find x m)) [
    | inl free ↦ rw (insert_map_free x s m free) (b, bs)
    | inr (r, taken) ↦ rw (insert_map_taken x s r m taken) bs
  ]

  -- The scopes around the innermost block.
  pub record Around (live : ℕ → Bool) (t : SymbolTable) (bs : List Map) : Type 0 where
    pub rts : AllBacked live t.m_rts
    pub globals : AllBacked live t.m_global
    pub formals : AllBacked live t.m_func
    pub rest : AllBacked live (flatten_blocks bs)

  pub Around-Grows :
      {live after : ℕ → Bool} {t : SymbolTable} {bs : List Map}
      → Grows live after
      → Around live t bs
      → Around after t bs
  Around-Grows {t} {bs} g a = record {
    rts = AllBacked-Grows g t.m_rts a.rts;
    globals = AllBacked-Grows g t.m_global a.globals;
    formals = AllBacked-Grows g t.m_func a.formals;
    rest = AllBacked-Grows g (flatten_blocks bs) a.rest;
  }

  pub binding-Backed :
      {live : ℕ → Bool} (t : SymbolTable)
      → Around live t t.m_blocks
      → (x : Bytes) (s : Symbol) → binding t x ≡ some s
      → Backed live x s
  unfolding environment
  binding-Backed {live} t a x s e =
      find-Backed x (environment t)
        (AllBacked-append live (flatten_blocks t.m_blocks) _ a.rest (
          AllBacked-append live t.m_func _ a.formals
            (AllBacked-append live t.m_global t.m_rts a.globals a.rts)))
        (subst (λ o. o ≡ some s) (query-environment x t) e)

  module _ {Γ : Bytes → Option Symbol} {live : ℕ → Bool}
      (backed : (x : Bytes) (s : Symbol) → Γ x ≡ some s → Backed live x s) where
    identifier-live :
        {e : Expr} {line : ℕ} {x : Bytes} {s : Symbol}
        → Resolves Γ e (id_expr line x (some s))
        → live s.address ≡ true
    identifier-live (Resolves.id {x} {s = s} b v) = (backed x s b).variable v

    mutual
      pub Resolves-ScopedExpr :
          {e e' : Expr} {a : VType} → HasType e' a → Resolves Γ e e' → ScopedExpr known live e'
      Resolves-ScopedExpr (HasType.id t) r = ScopedExpr.id (identifier-live r)
      Resolves-ScopedExpr HasType.ival r = ScopedExpr.lit
      Resolves-ScopedExpr HasType.bval r = ScopedExpr.lit
      Resolves-ScopedExpr HasType.sval r = ScopedExpr.lit
      Resolves-ScopedExpr (HasType.unary u t) (Resolves.unary r) =
          ScopedExpr.unary (Resolves-ScopedExpr t r)
      Resolves-ScopedExpr (HasType.increment i w e) (Resolves.unary r) =
          ScopedExpr.unary (ScopedExpr.id (identifier-live r))
      Resolves-ScopedExpr (HasType.binary t t' _) (Resolves.binary r r') =
          ScopedExpr.binary (Resolves-ScopedExpr t r) (Resolves-ScopedExpr t' r')
      Resolves-ScopedExpr (HasType.bitwise t t') (Resolves.bitwise r r') =
          ScopedExpr.bitwise (Resolves-ScopedExpr t r) (Resolves-ScopedExpr t' r')
      Resolves-ScopedExpr (HasType.assign {s = s} w e t) (Resolves.assign r r') =
          ScopedExpr.assign s refl (identifier-live r) (Resolves-ScopedExpr t r')
      Resolves-ScopedExpr (HasType.call e ts e') (Resolves.call {f} {s = s} rs b c) =
          ScopedExpr.call ((backed f s b).function c.function) (ResolvesAll-AllScoped ts rs)

      ResolvesAll-AllScoped :
          {es es' : Actuals} {params : List VType}
          → HaveTypes es' params
          → ResolvesAll Γ es es'
          → AllScoped known live es'
      ResolvesAll-AllScoped HaveTypes.nil rs = AllScoped.nil
      ResolvesAll-AllScoped (HaveTypes.cons t ts) (ResolvesAll.cons r rs) =
          AllScoped.cons (Resolves-ScopedExpr t r) (ResolvesAll-AllScoped ts rs)
