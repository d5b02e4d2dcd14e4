-- ===== src/Codegen/Ready.antt =====
-- What a state of the code generator offers to the code of a function's body, and that each call of
-- the builder keeps it.
use jmm_llvm.Prelude.{
  arith, inr, inl, ◌==◌, Bool-cases, ℕ, Bool, true, Option, some, Bytes, ◌≡◌, refl, ◌∙◌,
}
use jmm_llvm.Common.Outcome.{Returns, gives}
use jmm_llvm.Common.Symbol.{Symbol}
use jmm_llvm.Codegen.Llvm.{Llvm, Instruction}
use jmm_llvm.Codegen.State.{
  frame, Codegen, with_state, emit, new_block, set_point, continue_in, new_string, incoming,
  current_block, current_function, value_of, set_value, set_slot,
}
use jmm_llvm.Codegen.Laws.{Keeps, Stays, BuilderLaws}
use jmm_llvm.Codegen.Scoped.{with_address}

-- The builder appends to a block of `f`; the functions of `table` are in the module under
-- their names; the symbols of `live` have a value.
pub record Ready (llvm : Llvm) (table : Bytes → Option llvm.Function) (f : llvm.Function)
    (live : ℕ → Bool) (c : Codegen llvm) : Type 0 where
  pub block : llvm.Block
  pub here : llvm.insert_block c.state ≡ some block
  pub inside : llvm.parent block c.state ≡ some f
  pub functions :
      (name : Bytes) (g : llvm.Function)
      → table name ≡ some g
      → llvm.get_function name c.state ≡ some g
  pub variables : (a : ℕ) → live a ≡ true → (v : llvm.Value) × (c.values a ≡ some v)

set_slot-with_address :
    (llvm : Llvm) (a : ℕ) (v : llvm.Value) (values : ℕ → Option llvm.Value) (live : ℕ → Bool)
    → ((b : ℕ) → live b ≡ true → (w : llvm.Value) × (values b ≡ some w))
    → (b : ℕ) → with_address a live b ≡ true
    → (w : llvm.Value) × (set_slot llvm a v values b ≡ some w)
set_slot-with_address llvm a v values live set b h = elim (Bool-cases (b == a)) [
  | inl e ↦ (v, rw e refl)
  | inr e ↦ let (w, k) = set b (ground arith) in (w, rw e k)
]

module _ (llvm : Llvm) (laws : BuilderLaws llvm) (table : Bytes → Option llvm.Function)
    (f : llvm.Function) where
  open llvm use {State, Value, Block}

  -- A step of the builder that stays, from `c`.
  pub stay :
      {live : ℕ → Bool} {c : Codegen llvm} {s : State}
      → Ready llvm table f live c
      → Stays llvm c.state s
      → Ready llvm table f live (with_state llvm s c)
  stay r k = record {
    block = r.block;
    here = k.block ∙ r.here;
    inside = k.keeps.parents r.block f r.inside;
    functions = λ name g h. k.keeps.functions name g (r.functions name g h);
    variables = r.variables;
  }

  -- The builder moves to the block `b` of `f`.
  pub move :
      {live : ℕ → Bool} {c : Codegen llvm} {s : State} (b : Block)
      → Ready llvm table f live c
      → ((name : Bytes) (g : llvm.Function)
          → llvm.get_function name c.state ≡ some g
          → llvm.get_function name s ≡ some g)
      → llvm.insert_block s ≡ some b
      → llvm.parent b s ≡ some f
      → Ready llvm table f live (with_state llvm s c)
  move b r names here inside = record {
    block = b;
    here = here;
    inside = inside;
    functions = λ name g h. names name g (r.functions name g h);
    variables = r.variables;
  }

  -- The state `c'` is ready, with the frame of `c`.
  abbrev pub Next : (ℕ → Bool) → Codegen llvm → Codegen llvm → Type 0
  Next live c c' = Ready llvm table f live c' × (frame llvm c' ≡ frame llvm c)

  module _ {live : ℕ → Bool} {c : Codegen llvm} (r : Ready llvm table f live c) where
    pub emit-Returns :
        (i : Instruction llvm.Value llvm.Block llvm.Function llvm.Ty)
        → Returns (λ (v, c'). Next live c c' × Keeps llvm c.state c'.state) (emit llvm i c)
    unfolding emit
    emit-Returns i = let k = laws.build_stays i c.state in gives ((stay r k, refl), k.keeps)

    pub new_block-Returns :
        (name : Bytes) (o : Option llvm.Function)
        → Returns
            (λ (b, c'). Next live c c' × Keeps llvm c.state c'.state × (llvm.parent b c'.state ≡ o))
            (new_block llvm name o c)
    unfolding new_block
    new_block-Returns name o =
        let k = laws.block_stays name o c.state in
        gives ((stay r k, refl), k.keeps, laws.block_parent name o c.state)

    pub new_string-Returns :
        (text name : Bytes) → Returns (λ (v, c'). Next live c c') (new_string llvm text name c)
    unfolding new_string
    new_string-Returns text name = gives (stay r (laws.string_stays text name c.state), refl)

    pub incoming-Returns :
        (phi v : Value) (b : Block) → Returns (Next live c) (incoming llvm phi v b c)
    unfolding incoming
    incoming-Returns phi v b = gives (stay r (laws.incoming_stays phi v b c.state), refl)

    pub set_point-Returns :
        (b : Block) → llvm.parent b c.state ≡ some f → Returns (Next live c) (set_point llvm b c)
    unfolding set_point
    set_point-Returns b inside = gives (
      move b r (laws.point_keeps b c.state).functions (laws.point_block b c.state)
          ((laws.point_keeps b c.state).parents b f inside),
      refl,
    )

    pub continue_in-Returns : (b : Block) → Returns (Next live c) (continue_in llvm f b c)
    unfolding continue_in
    continue_in-Returns b =
        let s = llvm.append_block f b c.state in
        gives (
          move b r
              (λ name g e.
                (laws.point_keeps b s).functions name g
                  (laws.append_functions f b c.state name g e))
              (laws.point_block b s)
              ((laws.point_keeps b s).parents b f (laws.append_parent f b c.state)),
          refl,
        )

    pub current_block-Returns : Returns (λ _. Unit {0}) (current_block llvm c)
    unfolding current_block
    current_block-Returns = rw r.here (gives tt)

    pub current_function-Returns : Returns (λ g. g ≡ f) (current_function llvm c)
    unfolding current_function current_block
    current_function-Returns = rw r.here (rw r.inside (gives refl))

    pub value_of-Returns :
        (s : Symbol) → live s.address ≡ true → Returns (λ _. Unit {0}) (value_of llvm (some s) c)
    unfolding value_of
    value_of-Returns s h = let (v, e) = r.variables s.address h in rw e (gives tt)

    pub set_value-Returns :
        (s : Symbol) (v : Value)
        → Returns (Next (with_address s.address live) c) (set_value llvm (some s) v c)
    unfolding set_value
    set_value-Returns s v = gives (
      record {
        block = r.block;
        here = r.here;
        inside = r.inside;
        functions = r.functions;
        variables = set_slot-with_address llvm s.address v c.values live r.variables;
      },
      refl,
    )
