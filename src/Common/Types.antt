-- ===== src/Common/Types.antt =====
-- common/globals.h: `enum class VType` and `enum class Op`.
use jmm_llvm.Prelude.{Bool, true, false, ◌≡◌, ◌↔◌, arith}

pub data VType : Type 0 where
  int str bool void : VType

pub data Op : Type 0 where
  band bor land lor xor add postinc postdec preinc predec sub mult div modulo : Op
  not eq ne gt lt ge le lshift rshift : Op

-- `a == b` on value types.
abbrev pub vtype_eq : VType → VType → Bool
vtype_eq int int = true
vtype_eq str str = true
vtype_eq bool bool = true
vtype_eq void void = true
vtype_eq _ _ = false

pub vtype_eq_iff : (a b : VType) → (vtype_eq a b ≡ true) ↔ (a ≡ b)
vtype_eq_iff a b = ground arith

pub vtype_eq_refl : (a : VType) → vtype_eq a a ≡ true
vtype_eq_refl a = ground arith
