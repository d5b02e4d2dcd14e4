-- ===== src/Codegen/Globals/Provided.antt =====
-- What the pass over the declarations leaves: each function is in the module under its name, with an
-- argument for each parameter, and each global variable has a value.
use jmm_llvm.Prelude.{
  none, ◌==◌, ℕ, Bool-cases, inl, inr, Option, some, List, [], ◌∷◌, Bytes, length, length-map, ◌≡◌,
  ◌≢◌, refl, ◌∙◌, arith,
}
use jmm_llvm.Common.Types.{VType}
use jmm_llvm.Common.Symbol.{Symbol}
use jmm_llvm.Common.Ast.{ParamDecl, Children, Decl, gvar_decl, func_decl, mfunc_decl, Program}
use jmm_llvm.Common.Outcome.{relax, Returns, gives, ◌▷◌}
use jmm_llvm.Semantic.Program.{Every}
use jmm_llvm.Codegen.Llvm.{Llvm}
use jmm_llvm.Codegen.State.{Codegen, frame, get_type, set_slot, set_value}
use jmm_llvm.Codegen.Laws.{Within, Distinct, Free, Declares, Quiet, ModuleLaws}
use jmm_llvm.Codegen.Globals.{
  false, new_variable, new_main, map, prototype, name_first, name_args, new_function, make_global,
  visit_decl, visit,
}

abbrev pub name_of : Decl → Bytes
name_of (gvar_decl _ x _ _) = x
name_of (func_decl _ x _ _ _ _) = x
name_of (mfunc_decl _ x _ _) = x

abbrev pub names : Program → List Bytes
names [] = []
names (d ∷ ds) = name_of d ∷ names ds

-- A declaration as the analyzer leaves it: its symbol is set, no variable is `void`, and the symbol of
-- a function has a type for each parameter.
pub data Declared : Decl → Type 0 where
  gvar :
      {line : ℕ} {x : Bytes} {a : VType} {s : Symbol}
      → a ≢ VType.void
      → Declared (gvar_decl line x a (some s))
  func :
      {line : ℕ} {x : Bytes} {a : VType} {ps : List ParamDecl} {body : Children} {s : Symbol}
      (types : List VType)
      → s.param_types ≡ some types
      → length types ≡ length ps
      → Declared (func_decl line x a ps body (some s))
  main :
      {line : ℕ} {x : Bytes} {body : Children} {o : Option Symbol}
      → Declared (mfunc_decl line x body o)

-- What a table of functions and the values of the symbols provide for a declaration.
pub data Provides (llvm : Llvm) (table : Bytes → Option llvm.Function)
    (values : ℕ → Option llvm.Value) : Decl → Type 0 where
  gvar :
      {line : ℕ} {x : Bytes} {a : VType} {s : Symbol} (v : llvm.Value)
      → values s.address ≡ some v
      → Provides llvm table values (gvar_decl line x a (some s))
  func :
      {line : ℕ} {x : Bytes} {a : VType} {ps : List ParamDecl} {body : Children} {o : Option Symbol}
      (f : llvm.Function)
      → table x ≡ some f
      → length (llvm.args f) ≡ length ps
      → Provides llvm table values (func_decl line x a ps body o)
  main :
      {line : ℕ} {x : Bytes} {body : Children} {o : Option Symbol} (f : llvm.Function)
      → table x ≡ some f
      → Provides llvm table values (mfunc_decl line x body o)

-- From `c` to `c'` no function and no value of a symbol is lost.
pub record Extends (llvm : Llvm) (c c' : Codegen llvm) : Type 0 where
  pub functions :
      (n : Bytes) (f : llvm.Function)
      → llvm.get_function n c.state ≡ some f
      → llvm.get_function n c'.state ≡ some f
  pub values :
      (a : ℕ) (v : llvm.Value) → c.values a ≡ some v → (w : llvm.Value) × (c'.values a ≡ some w)
  pub frame_same : frame llvm c' ≡ frame llvm c

Declares-trans :
    {llvm : Llvm} {name : Bytes} {s t u : llvm.State}
    → Declares llvm name s t
    → Declares llvm name t u
    → Declares llvm name s u
Declares-trans k l = record {
  functions = λ n f e. l.functions n f (k.functions n f e);
  free = λ n d e. l.free n d (k.free n d e);
}

Quiet-Declares :
    {llvm : Llvm} {name : Bytes} {s t : llvm.State} → Quiet llvm s t → Declares llvm name s t
Quiet-Declares q = record { functions = q.functions; free = λ n _ h. q.free n h }

module _ (llvm : Llvm) where
  -- The module's functions by name.
  abbrev pub table_of : Codegen llvm → Bytes → Option llvm.Function
  table_of c name = llvm.get_function name c.state

  Provides-Extends :
      {c c' : Codegen llvm} {d : Decl}
      → Extends llvm c c'
      → Provides llvm (table_of c) c.values d
      → Provides llvm (table_of c') c'.values d
  Provides-Extends x (Provides.gvar {s} v e) =
      let (w, e') = x.values s.address v e in Provides.gvar w e'
  Provides-Extends x (Provides.func {x = name} f e k) = Provides.func f (x.functions name f e) k
  Provides-Extends x (Provides.main {x = name} f e) = Provides.main f (x.functions name f e)

  module _ (laws : ModuleLaws llvm) where
    name_first-Declares :
        (f : llvm.Function) (arg : llvm.Value) (ps : List ParamDecl) (name : Bytes)
        (s t : llvm.State)
        → Within arg (llvm.args f)
        → Declares llvm name s t
        → Declares llvm name s (name_first llvm arg ps t)
    unfolding name_first
    name_first-Declares f arg [] name s t w k = k
    name_first-Declares f arg (p ∷ ps) name s t w k =
        elim (Bool-cases (llvm.ty_eq (get_type llvm p.type) (llvm.value_type arg))) [
          | inl e ↦ rw e (
              name_first-Declares f arg ps name s (llvm.set_value_name arg p.id t) w
                (Declares-trans k (Quiet-Declares (laws.argument_quiet f arg p.id t w))))
          | inr e ↦ rw e (name_first-Declares f arg ps name s t w k)
        ]

    name_args-Declares :
        (f : llvm.Function) (args : List llvm.Value) (ps : List ParamDecl) (name : Bytes)
        (s t : llvm.State)
        → ((v : llvm.Value) → Within v args → Within v (llvm.args f))
        → length args ≡ length ps
        → Declares llvm name s t
        → Returns (Declares llvm name s) (name_args llvm args ps t)
    unfolding name_args
    name_args-Declares f args [] name s t h e k = gives k
    name_args-Declares f [] (p ∷ ps) name s t h e k = ground arith
    name_args-Declares f (arg ∷ args) (p ∷ ps) name s t h e k =
        gives (name_first-Declares f arg (p ∷ ps) name s t (h arg Within.here) k)

    -- What the visit of one declaration leaves.
    abbrev Visited : Decl → Codegen llvm → Codegen llvm → Type 0
    Visited d c c' =
        Extends llvm c c'
        × Provides llvm (table_of c') c'.values d
        × Declares llvm (name_of d) c.state c'.state

    prototype-args :
        (a : VType) (types : List VType) (o : Option (List VType)) (x : Bytes) (s : llvm.State)
        → o ≡ some types
        → length (llvm.args (llvm.create_function (prototype llvm a o) x s).0) ≡ length types
    unfolding prototype
    prototype-args a types o x s e = rw e (
        laws.create_args (get_type llvm a) (map (λ p. get_type llvm p) types) x s
        ∙ length-map (λ p. get_type llvm p) types)

    new_function-Visited :
        (line : ℕ) (x : Bytes) (a : VType) (ps : List ParamDecl) (body : Children) (s : Symbol)
        (types : List VType) (c : Codegen llvm)
        → s.param_types ≡ some types
        → length types ≡ length ps
        → Free llvm x c.state
        → Returns
            (Visited (func_decl line x a ps body (some s)) c)
            (new_function llvm x a ps (some s) c)
    unfolding new_function
    new_function-Visited line x a ps body s types c e k free =
        let t = prototype llvm a s.param_types in
        let f = (llvm.create_function t x c.state).0 in
        let m = (llvm.create_function t x c.state).1 in
        let made = laws.create_declares t x c.state free in
        let count = prototype-args a types s.param_types x c.state e ∙ k in
        name_args-Declares f (llvm.args f) ps x m m (λ _ w. w) count
          (record { functions = λ _ _ e. e; free = λ _ _ e. e })
        ▷ λ u d.
            let both = Declares-trans made d in
            gives (
              record { functions = both.functions; values = λ b v e. (v, e); frame_same = refl },
              Provides.func f (d.functions x f (laws.create_found t x c.state free)) count,
              both,
            )

    new_main-Visited :
        (line : ℕ) (x : Bytes) (body : Children) (o : Option Symbol) (c : Codegen llvm)
        → Free llvm x c.state
        → Returns (Visited (mfunc_decl line x body o) c) (new_main llvm x c)
    unfolding new_main
    new_main-Visited line x body o c free =
        let t = llvm.function_type llvm.void_ty [] false in
        let made = laws.create_declares t x c.state free in
        gives (
          record { functions = made.functions; values = λ b v e. (v, e); frame_same = refl },
          Provides.main (llvm.create_function t x c.state).0 (laws.create_found t x c.state free),
          made,
        )

    make_global-Declares :
        (x : Bytes) (a : VType) (s : llvm.State)
        → a ≢ VType.void
        → Free llvm x s
        → Returns (λ (_, t). Declares llvm x s t) (make_global llvm x a s)
    unfolding make_global
    make_global-Declares x VType.int s d free = gives (laws.global_declares _ _ _ x s free)
    make_global-Declares x VType.str s d free = gives (laws.global_declares _ _ _ x s free)
    make_global-Declares x VType.bool s d free = gives (laws.global_declares _ _ _ x s free)
    make_global-Declares x VType.void s d free = elim (d refl) [ ]

    set_slot-keeps :
        (a : ℕ) (v : llvm.Value) (values : ℕ → Option llvm.Value) (b : ℕ) (w : llvm.Value)
        → values b ≡ some w
        → (u : llvm.Value) × (set_slot llvm a v values b ≡ some u)
    set_slot-keeps a v values b w e = elim (Bool-cases (b == a)) [
      | inl same ↦ (v, rw same refl)
      | inr other ↦ (w, rw other e)
    ]

    set_slot-same :
        (a : ℕ) (v : llvm.Value) (values : ℕ → Option llvm.Value)
        → set_slot llvm a v values a ≡ some v
    set_slot-same a v values = ground arith

    new_variable-Visited :
        (line : ℕ) (x : Bytes) (a : VType) (s : Symbol) (c : Codegen llvm)
        → a ≢ VType.void
        → Free llvm x c.state
        → Returns (Visited (gvar_decl line x a (some s)) c) (new_variable llvm x a (some s) c)
    unfolding new_variable set_value
    new_variable-Visited line x a s c d free = make_global-Declares x a c.state d free ▷ λ (v, t) k.
        gives (
          record {
            functions = k.functions;
            values = set_slot-keeps s.address v c.values;
            frame_same = refl;
          },
          Provides.gvar v (set_slot-same s.address v c.values),
          k,
        )

    visit_decl-Visited :
        (d : Decl) (c : Codegen llvm)
        → Declared d
        → Free llvm (name_of d) c.state
        → Returns (Visited d c) (visit_decl llvm d c)
    unfolding visit_decl
    visit_decl-Visited (gvar_decl line x a (some s)) c (Declared.gvar n) free =
        new_variable-Visited line x a s c n free
    visit_decl-Visited (func_decl line x a ps body (some s)) c (Declared.func types e k) free =
        new_function-Visited line x a ps body s types c e k free
    visit_decl-Visited (gvar_decl line x a none) c h free = elim h [ ]
    visit_decl-Visited (func_decl line x a ps body none) c h free = elim h [ ]
    visit_decl-Visited (mfunc_decl line x body o) c Declared.main free =
        new_main-Visited line x body o c free

    every_Provided :
        (ds : Program) {c c' : Codegen llvm}
        → Extends llvm c c'
        → Every (Provides llvm (table_of c) c.values) ds
        → Every (Provides llvm (table_of c') c'.values) ds
    every_Provided [] x h = tt
    every_Provided (d ∷ ds) x (h, hs) = (Provides-Extends x h, every_Provided ds x hs)

    -- On declarations with different names that are free in the module (not empty, and no function or
    -- variable has them, be it private), the pass returns: every
    -- function is in the module under its name, with an argument for each parameter, every global
    -- variable has a value, and no function that was there is lost.
    pub visit-Provides :
        (ds : Program) (c : Codegen llvm)
        → Every Declared ds
        → Distinct (names ds)
        → ((x : Bytes) → Within x (names ds) → Free llvm x c.state)
        → Returns
            (λ c'. Extends llvm c c' × Every (Provides llvm (table_of c') c'.values) ds)
            (visit llvm ds c)
    unfolding visit
    visit-Provides [] c h n free =
        gives (record { functions = λ _ _ e. e; values = λ b v e. (v, e); frame_same = refl }, tt)
    visit-Provides (d ∷ ds) c (h, hs) (Distinct.cons apart n) free =
        visit_decl-Visited d c h (free (name_of d) Within.here) ▷ λ c₁ (x₁, p, k).
        relax
          (λ c₂ (x₂, ps). (
            record {
              functions = λ n f e. x₂.functions n f (x₁.functions n f e);
              values = λ a v e. let (w, e') = x₁.values a v e in x₂.values a w e';
              frame_same = x₂.frame_same ∙ x₁.frame_same;
            },
            (Provides-Extends x₂ p, ps),
          ))
          (visit-Provides ds c₁ hs n (λ x w. k.free x (apart x w) (free x (Within.there w))))
