-- ===== src/Common/Outcome.antt =====
-- How a run of a part of the compiler ends, and common/errwarn.h: the logger.
use jmm_llvm.Prelude.{
  inr, inl, Bool-cases, ℕ, ◌+◌, Bool, true, false, ltb, if◌then◌else◌, ◌≡◌, refl, ◌≢◌, Bytes,
  String, subst,
}
use jmm_llvm.Common.Token.{Token}
use jmm_llvm.Common.Types.{VType, Op}

-- One constructor for each call of `Logger::error`, with the values its message shows.
pub data Error : Type 0 where
  too_many_warnings : Error
  -- parser; the exceptions of `std::stoul` end the process, too
  expected : ℕ → String → Token → Error
  main_with_parameters expected_declaration : ℕ → Token → Error
  uncaught_out_of_range uncaught_invalid_argument : Error
  -- global_visitor
  redefined_global redefined_global_kind : Bytes → ℕ → ℕ → Error
  -- func_visitor
  no_main : Error
  return_outside_function : Error
  break_outside_while : ℕ → Error
  undefined_variable : Bytes → ℕ → Error
  function_as_variable : ℕ → Error
  undefined_function : Bytes → ℕ → Error
  variable_as_function : ℕ → Error
  main_invoked : ℕ → Error
  redefined_main : ℕ → Error
  redefined_variable : Bytes → ℕ → ℕ → Error
  redefined_parameter : Bytes → VType → ℕ → VType → Error
  -- type_visitor
  if_condition while_condition : ℕ → Error
  value_from_void return_type_differs : ℕ → Error
  increment_of_rvalue increment_of_call increment_of_non_int : ℕ → Error
  negation_of_non_bool : ℕ → Error
  unary_on_non_int : Op → ℕ → Error
  operand_types_differ : Op → ℕ → Error
  operand_not_bool operand_not_int : Op → ℕ → Error
  no_equality : Op → VType → ℕ → Error
  not_a_binary_op : Error
  assign_to_non_identifier assign_to_non_variable : ℕ → Error
  assign_type_differs : VType → VType → ℕ → Error
  wrong_argument_count : ℕ → Bytes → ℕ → ℕ → Error
  wrong_argument_types : Bytes → ℕ → Error
  -- code generator
  missing_function : Bytes → ℕ → Error
  void_variable : Error

-- `exit e`: the message is printed and the process ends. `fault`: undefined behaviour, such as
-- a read through a null pointer. `running`: the loop has not ended within the fuel given.
pub data Outcome {ℓ} (A : Type ℓ) : Type ℓ where
  ok : A → Outcome A
  exit : Error → Outcome A
  fault : Outcome A
  running : Outcome A

infixl 5 ◌>>=◌ ◌>>◌
abbrev pub ◌>>=◌ {ℓ κ} : {S : Type ℓ} {T : Type κ} → Outcome S → (S → Outcome T) → Outcome T
running >>= next = running
fault >>= next = fault
exit message >>= next = exit message
ok s >>= next = next s

abbrev pub ◌>>◌ {κ} : {T : Type κ} → Outcome (Unit {0}) → Outcome T → Outcome T
first >> second = first >>= λ _. second

-- `if (b) m_logger->error(…)`.
abbrev pub error_if : Bool → Error → Outcome (Unit {0})
error_if true e = exit e
error_if false e = ok tt

-- `P` holds of the value if there is one; the run neither faults nor runs on.
pub data Ensures {ℓ κ} {A : Type ℓ} (P : A → Type κ) : Outcome A → Type (ℓ ⊔ κ) where
  returns : {a : A} → P a → Ensures P (ok a)
  exits : {e : Error} → Ensures P (exit e)

module _ {ℓ κ} {A : Type ℓ} {P : A → Type κ} where
  pub Ensures-ok : {r : Outcome A} {a : A} → Ensures P r → r ≡ ok a → P a
  Ensures-ok (returns h) e = subst P (cc) h
  Ensures-ok exits e = cc

  pub Ensures-ne-fault : {r : Outcome A} → Ensures P r → r ≢ fault
  Ensures-ne-fault (returns h) = cc
  Ensures-ne-fault exits = cc

  pub Ensures-ne-running : {r : Outcome A} → Ensures P r → r ≢ running
  Ensures-ne-running (returns h) = cc
  Ensures-ne-running exits = cc

  pub Ensures-error_if :
      (b : Bool) (e : Error) {r : Outcome A}
      → (b ≡ false → Ensures P r)
      → Ensures P (error_if b e >> r)
  Ensures-error_if true e h = exits
  Ensures-error_if false e h = h refl

  pub weaken {κ'} :
      {Q : A → Type κ'} {r : Outcome A} → ((a : A) → P a → Q a) → Ensures P r → Ensures Q r
  weaken g (returns h) = returns (g _ h)
  weaken g exits = exits

  infixl 1 ◌⟫◌
  pub ◌⟫◌ {ℓ' κ'} :
      {B : Type ℓ'} {Q : B → Type κ'} {r : Outcome A} {f : A → Outcome B}
      → Ensures P r
      → ((a : A) → P a → Ensures Q (f a))
      → Ensures Q (r >>= f)
  returns {a} h ⟫ k = k a h
  exits ⟫ k = exits

-- The run gives a value, and `P` holds of it.
pub data Returns {ℓ κ} {A : Type ℓ} (P : A → Type κ) : Outcome A → Type (ℓ ⊔ κ) where
  gives : {a : A} → P a → Returns P (ok a)

module _ {ℓ κ} {A : Type ℓ} {P : A → Type κ} where
  pub Returns-ok : {r : Outcome A} → Returns P r → (a : A) × (r ≡ ok a) × P a
  Returns-ok (gives h) = (_, refl, h)

  pub sure : {r : Outcome A} → Returns P r → Ensures P r
  sure (gives h) = returns h

  pub relax {κ'} :
      {Q : A → Type κ'} {r : Outcome A} → ((a : A) → P a → Q a) → Returns P r → Returns Q r
  relax g (gives h) = gives (g _ h)

  infixl 1 ◌▷◌
  pub ◌▷◌ {ℓ' κ'} :
      {B : Type ℓ'} {Q : B → Type κ'} {r : Outcome A} {f : A → Outcome B}
      → Returns P r
      → ((a : A) → P a → Returns Q (f a))
      → Returns Q (r >>= f)
  gives {a} h ▷ k = k a h

-- common/errwarn.h
pub record Logger : Type 0 where
  pub warnings : ℕ

abbrev max_warnings : ℕ
max_warnings = 10

unfoldable pub warning : Logger → Outcome Logger
warning l =
    if ltb max_warnings (l.warnings + 1)
    then exit too_many_warnings
    else ok (record { warnings = l.warnings + 1 })

pub warning_lem : (l : Logger) → Ensures (λ _. Unit {0}) (warning l)
unfolding warning
warning_lem l = elim (Bool-cases (ltb max_warnings (l.warnings + 1))) [
  | inl many ↦ rw many exits
  | inr few ↦ rw few (returns tt)
]
