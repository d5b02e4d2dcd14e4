-- ===== src/Common/Symbol.antt =====
-- common/symtab.h: `struct Symbol`. A symbol is shared: its address tells it from every other one, and
-- the code generator keeps the values of the field `llvm_Value` by address (Codegen.State).
use jmm_llvm.Prelude.{ℕ, Bool, true, false, Option, none, some, List}
use jmm_llvm.Common.Types.{VType}

pub data SymType : Type 0 where
  var func : SymType

pub record Symbol : Type 0 where
  pub address : ℕ
  pub symbol_type : SymType
  pub v_type : VType
  pub line : ℕ
  pub param_types : Option (List VType)
  pub is_main : Bool

-- The three constructors of the struct, told apart there by their arguments.
abbrev pub func_symbol : VType → List VType → ℕ → ℕ → Symbol
func_symbol type params lineno address = record {
  address = address;
  symbol_type = SymType.func;
  v_type = type;
  line = lineno;
  param_types = some params;
  is_main = false;
}

abbrev pub main_symbol : ℕ → ℕ → Symbol
main_symbol lineno address = record {
  address = address;
  symbol_type = SymType.func;
  v_type = VType.void;
  line = lineno;
  param_types = none;
  is_main = true;
}

abbrev pub var_symbol : VType → ℕ → ℕ → Symbol
var_symbol type lineno address = record {
  address = address;
  symbol_type = SymType.var;
  v_type = type;
  line = lineno;
  param_types = none;
  is_main = false;
}

abbrev pub is_var : Symbol → Bool
is_var s = elim s.symbol_type [ SymType.var ↦ true | SymType.func ↦ false ]
