-- ===== src/Codegen/Tests/Lawful.antt =====
-- The machine keeps the laws that the theorems rely on.
use jmm_llvm.Codegen.Tests.Machine.{
  has, Func, Machine, lookup, owner, total, contains, entry, listed, numbered, ends, mark, new_func,
  machine,
}
use jmm_llvm.Prelude.{
  inr, inl, Bool-cases, bytes_eq_iff, ◌∙◌, ℕ, suc, ◌<◌, ◌==◌, Bool, true, false, Option, some, none,
  List, [], ◌∷◌, ◌++◌, Bytes, bytes_eq, length, ◌≡◌, ◌≢◌, refl, arith,
}
use jmm_llvm.Codegen.Laws.{Free, AtEnd, ModuleLaws, Keeps, BuilderLaws, BlockLaws, Distinct}

owner_fresh : (b : ℕ) (m : List (ℕ × Option Func)) → total m < b → owner b m ≡ none
owner_fresh b [] h = refl
owner_fresh b ((n, o) ∷ m) h = ground (arith, owner_fresh b m)

unchanged : (m : Machine) → Keeps machine m m
unchanged m = record { functions = λ _ _ e. e; parents = λ _ _ e. e }

made :
    (o : Option Func) (m : Machine) (b : ℕ) (f : Func)
    → owner b m.owners ≡ some f
    → owner b ((suc (total m.owners), o) ∷ m.owners) ≡ some f
made o m b f e = ground (arith, owner_fresh b m.owners)

same : (b : ℕ) → (b == b) ≡ true
same b = ground arith

pub builder_laws : BuilderLaws machine
builder_laws = record {
  build_stays = λ i s. record {
    keeps = record { functions = λ _ _ e. e; parents = λ _ _ e. e };
    block = refl;
  };
  string_stays = λ _ _ s. record {
    keeps = record { functions = λ _ _ e. e; parents = λ _ _ e. e };
    block = refl;
  };
  incoming_stays = λ _ _ _ s. record { keeps = unchanged s; block = refl };
  block_stays = λ _ o s. record {
    keeps = record { functions = λ _ _ e. e; parents = made o s };
    block = refl;
  };
  block_parent = λ _ o s. rw (same (suc (total s.owners))) refl;
  append_functions = λ _ _ _ _ _ e. e;
  append_parent = λ f b s. rw (same b) refl;
  point_keeps = λ _ s. record { functions = λ _ _ e. e; parents = λ _ _ e. e };
  point_block = λ _ _. refl;
  allocas_keeps = λ _ s. record { functions = λ _ _ e. e; parents = λ _ _ e. e };
  save_keeps = λ s. record { functions = λ _ _ e. e; parents = λ _ _ e. e };
  restore_keeps = λ _ s. record { functions = λ _ _ e. e; parents = λ _ _ e. e };
  restore_block = λ _ _. refl;
}

marked :
    (t : Bool) (at : Option ℕ) (bs : List ℕ) (b o : ℕ)
    → at ≡ some b
    → b ≢ o
    → contains o (mark t at bs) ≡ contains o bs
marked true (some n) bs b o e d = ground (arith)
marked true none bs b o e d = refl
marked false at bs b o e d = refl

ended : (b : ℕ) (at : Option ℕ) (bs : List ℕ) → at ≡ some b → contains b (mark true at bs) ≡ true
ended b (some n) bs e = ground arith
ended b none bs e = ground arith

singleton : (o : Option ℕ) → Distinct (listed o)
singleton none = Distinct.nil
singleton (some a) = Distinct.cons (λ b w. elim w [ ]) Distinct.nil

stands : (b : ℕ) (s : Machine) → AtEnd machine b s → s.at ≡ some b
stands b _ (AtEnd.point s) = refl
stands b _ (AtEnd.built i h) = stands b _ h

pub block_laws : BlockLaws machine
block_laws = record {
  build_touches = λ i b s e. record {
    keeps = record { functions = λ _ _ e. e; parents = λ _ _ e. e };
    blocks = λ _. refl;
    others = λ o d. marked (ends i) s.at s.ended b o e d;
  };
  build_here = λ _ _. refl;
  point_touches = λ b o s. record {
    keeps = record { functions = λ _ _ e. e; parents = λ _ _ e. e };
    blocks = λ _. refl;
    others = λ _ _. refl;
  };
  point_here = λ _ _. refl;
  trap_touches = λ o s. record { keeps = unchanged s; blocks = λ _. refl; others = λ _ _. refl };
  erase_touches =
      λ v b s w. record { keeps = unchanged s; blocks = λ _. refl; others = λ _ _. refl };
  ret_void_ends = λ b s e. ended b s.at s.ended (stands b s e);
  unreachable_ends = λ b s e. ended b s.at s.ended (stands b s e);
  blocks_distinct = λ f s. singleton (entry f s.owners);
}

module _ {ℓ} {A : Type ℓ} where
  lookup_kept :
      (n : Bytes) (m m' : List (Bytes × A)) (a : A)
      → lookup n m ≡ some a
      → lookup n (m ++ m') ≡ some a
  lookup_kept n [] m' a e = ground arith
  lookup_kept n ((k, b) ∷ m) m' a e = ground (arith, lookup_kept n m m' a)

  lookup_found :
      (n : Bytes) (m m' : List (Bytes × A)) → lookup n m ≡ none → lookup n (m ++ m') ≡ lookup n m'
  lookup_found n [] m' e = refl
  lookup_found n ((k, b) ∷ m) m' e = ground (arith, lookup_found n m m')

  lookup_added :
      (n : Bytes) (m : List (Bytes × A)) (a : A)
      → lookup n m ≡ none
      → lookup n (m ++ ((n, a) ∷ [])) ≡ some a
  lookup_added n m a e = lookup_found n m ((n, a) ∷ []) e ∙ rw ((bytes_eq_iff n n).1 refl) refl

  missing_entry : (n : Bytes) (m : List (Bytes × A)) → has n m ≡ false → lookup n m ≡ none
  missing_entry n [] e = refl
  missing_entry n ((k, b) ∷ m) e = ground (arith, missing_entry n m)

  has_other :
      (n x : Bytes) (m : List (Bytes × A)) (a : A)
      → x ≢ n
      → has n m ≡ false
      → has n (m ++ ((x, a) ∷ [])) ≡ false
  has_other n x [] a d e = elim (Bool-cases (bytes_eq x n)) [
    | inl same ↦ elim (d ((bytes_eq_iff x n).0 same)) [ ]
    | inr other ↦ rw other refl
  ]
  has_other n x ((k, b) ∷ m) a d e = ground (arith, has_other n x m a d)

-- No function, no variable and no string has a name that is not in use.
record Unused (n : Bytes) (m : Machine) : Type 0 where
  pub function : has n m.functions ≡ false
  pub variable : has n m.globals ≡ false
  pub text : has n m.strings ≡ false

unused : (n : Bytes) (m : Machine) → Free machine n m → Unused n m
unused n m h =
    let e = h.unused in
    record { function = ground arith; variable = ground arith; text = ground arith }

Unused-Free : (n : Bytes) (m : Machine) → n ≢ [] → Unused n m → Free machine n m
Unused-Free n m d u = record { spelled = d; unused = rw (u.function, u.variable, u.text) refl }

length-numbered : (n : ℕ) (ts : List ℕ) → length (numbered n ts) ≡ length ts
length-numbered n [] = refl
length-numbered n (t ∷ ts) = omega (arith, length-numbered (suc n) ts)

pub module_laws : ModuleLaws machine
module_laws = record {
  create_found = λ t x s free.
      lookup_added x s.functions (new_func t s.fresh)
        (missing_entry x s.functions (unused x s free).function);
  create_declares = λ t x s free. record {
    functions = λ n f e. lookup_kept n s.functions ((x, new_func t s.fresh) ∷ []) f e;
    free = λ n d h.
        let u = unused n s h in
        Unused-Free n (machine.create_function t x s).1 h.spelled (record {
          function = has_other n x s.functions (new_func t s.fresh) d u.function;
          variable = u.variable;
          text = u.text;
        });
  };
  create_args = λ _ params _ s. length-numbered (suc s.fresh) params;
  global_declares = λ t k v x s free. record {
    functions = λ _ _ e. e;
    free = λ n d h.
        let u = unused n s h in
        Unused-Free n (machine.new_global t k v x s).1 h.spelled (record {
          function = u.function;
          variable = has_other n x s.globals s.fresh d u.variable;
          text = u.text;
        });
  };
  string_declares = λ text x s free. record {
    functions = λ _ _ e. e;
    free = λ n d h.
        let u = unused n s h in
        Unused-Free n (machine.global_string text x s).1 h.spelled (record {
          function = u.function;
          variable = u.variable;
          text = has_other n x s.strings s.fresh d u.text;
        });
  };
  argument_quiet = λ _ _ _ _ _. record { functions = λ _ _ e. e; free = λ _ h. h };
  block_quiet = λ _ _ _. record {
    functions = λ _ _ e. e;
    free = λ _ h. record { spelled = h.spelled; unused = h.unused };
  };
  build_quiet = λ _ _. record {
    functions = λ _ _ e. e;
    free = λ _ h. record { spelled = h.spelled; unused = h.unused };
  };
  point_quiet = λ _ _. record {
    functions = λ _ _ e. e;
    free = λ _ h. record { spelled = h.spelled; unused = h.unused };
  };
  conv_quiet = λ _ _. record { functions = λ _ _ e. e; free = λ _ h. h };
  no_return_quiet = λ _ _. record { functions = λ _ _ e. e; free = λ _ h. h };
}
