-- ===== src/Symtab/Lookup.antt =====
-- The symbol table against its contract: one environment, searched from the innermost scope outwards.
use jmm_llvm.Prelude.{
  false, Bool-cases, Bool, true, Option, none, some, List, [], ◌∷◌, ◌++◌, ◌≡◌, refl, Bytes,
  bytes_eq, bytes_eq_iff, if◌then◌else◌, arith, ◌↔◌, ◌⊎◌, inl, inr,
}
use mathlib.Core.Option
use jmm_llvm.Common.Symbol.{Symbol}
use jmm_llvm.Common.Outcome.{ok}
use jmm_llvm.Symtab.{
  or_else, Scope, Map, find, insert_map, SymbolTable, insert, query_blocks, query_scope, query,
  enter_block, exit_block,
}

-- The abstract view: one list of bindings, innermost first.
unfoldable pub flatten_blocks : List Map → Map
flatten_blocks [] = []
flatten_blocks (b ∷ bs) = b ++ flatten_blocks bs

unfoldable pub environment : SymbolTable → Map
unfolding flatten_blocks
environment t = flatten_blocks t.m_blocks ++ (t.m_func ++ (t.m_global ++ t.m_rts))

-- The first answer there is.
abbrev first_some : Option Symbol → Option Symbol → Option Symbol
first_some (some s) o = some s
first_some none o = o

find-append :
    (name : Bytes) (xs ys : Map) → find name (xs ++ ys) ≡ first_some (find name xs) (find name ys)
unfolding find
find-append name [] ys = refl
find-append name ((k, s) ∷ xs) ys = ground (arith, find-append name xs ys)

find-flatten : (name : Bytes) (bs : List Map) → find name (flatten_blocks bs) ≡ query_blocks name bs
unfolding query_blocks flatten_blocks
find-flatten name [] = unfold find in refl
find-flatten name (b ∷ bs) =
    ground (arith, find-append name b (flatten_blocks bs), find-flatten name bs)

-- The symbol that a name stands for.
abbrev pub binding : SymbolTable → Bytes → Option Symbol
binding t name = Option.map (λ (r : Scope × Symbol). r.1) (query name t)

-- A name resolves to the first binding of the one environment that the four scopes make up.
pub query-environment :
    (name : Bytes) (t : SymbolTable) → binding t name ≡ find name (environment t)
unfolding query query_scope environment
query-environment name t = simp (find-append, find-flatten) (ground arith)

-- An insertion adds a binding for a new name, and leaves every name that is bound.
pub find-insert_map :
    (name other : Bytes) (s : Symbol) (m : Map)
    → find other (insert_map name s m).0
      ≡ first_some (find other m) (if bytes_eq name other then some s else none)
unfolding find insert_map
find-insert_map name other s m = ground (arith, bytes_eq_iff name other)

pub insert_map_free :
    (name : Bytes) (s : Symbol) (m : Map)
    → find name m ≡ none
    → insert_map name s m ≡ ((name, s) ∷ m, true)
unfolding insert_map
insert_map_free name s m e = ground arith

pub insert_map_taken :
    (name : Bytes) (s r : Symbol) (m : Map)
    → find name m ≡ some r
    → insert_map name s m ≡ (m, false)
unfolding insert_map
insert_map_taken name s r m e = ground arith

-- The flag that `insert` returns: whether the name was free.
insert_map-flag :
    (name : Bytes) (s : Symbol) (m : Map) → ((insert_map name s m).1 ≡ true) ↔ (find name m ≡ none)
unfolding insert_map
insert_map-flag name s m = ground arith

Map-cases : (bs : List Map) → (bs ≡ []) ⊎ ((b : Map) × (rest : List Map) × (bs ≡ b ∷ rest))
Map-cases [] = inl refl
Map-cases (b ∷ bs) = inr (b, bs, refl)

query_blocks-insert :
    (name other : Bytes) (s : Symbol) (b : Map) (bs : List Map)
    → find name b ≡ none
    → query_blocks other ((insert_map name s b).0 ∷ bs)
      ≡ (if bytes_eq name other then some s else query_blocks other (b ∷ bs))
unfolding query_blocks
query_blocks-insert name other s b bs free =
    ground (arith, find-insert_map name other s b, bytes_eq_iff name other)

-- A declaration that is accepted into the innermost block shadows its name, and no other name.
pub query-insert :
    (name other : Bytes) (s : Symbol) (t : SymbolTable) {t' : SymbolTable}
    → insert Scope.block name s t ≡ ok (t', true)
    → binding t' other ≡ (if bytes_eq name other then some s else binding t other)
unfolding insert query query_scope query_blocks
query-insert name other s t {t'} h = elim (Map-cases t.m_blocks) [
  | inl e ↦ ground arith
  | inr (b, bs, e) ↦
      let inserted : t' ≡ record t { m_blocks = (insert_map name s b).0 ∷ bs } = ground arith in
      let free : find name b ≡ none = ground (arith, insert_map-flag name s b) in
      rw inserted (
        simp (query_blocks-insert name other s b bs free, e)
          (elim (Bool-cases (bytes_eq name other)) [
            | inl same ↦ rw (same, or_else) refl
            | inr differ ↦ rw (differ, or_else) refl
          ]))
]

-- Leaving a block undoes the declarations made in it.
pub exit_block-insert :
    (name : Bytes) (s : Symbol) (t : SymbolTable) {u : SymbolTable} {done : Bool}
    → insert Scope.block name s (enter_block t) ≡ ok (u, done)
    → exit_block u ≡ ok t
unfolding insert enter_block exit_block
exit_block-insert name s t h = ground arith
