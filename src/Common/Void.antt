-- ===== src/Common/Void.antt =====
-- Trees in which no variable, global or local, is `void`. Parameters are not looked at.
use jmm_llvm.Prelude.{Bool, true, false, [], ◌∷◌, ◌&&◌, ◌≡◌, ◌≢◌, refl}
use jmm_llvm.Common.Types.{VType}
use jmm_llvm.Common.Ast.{
  Stmt, Children, if_stmt, if_else_stmt, while_stmt, return_stmt, break_stmt, block_stmt, expr_stmt,
  null_stmt, var_decl, no_children, child, Decl, gvar_decl, func_decl, mfunc_decl, Program,
}

abbrev pub not_void : VType → Bool
not_void VType.void = false
not_void _ = true

pub not_void_lem : (a : VType) → not_void a ≡ true → a ≢ VType.void
not_void_lem VType.void e = cc
not_void_lem VType.int e = cc
not_void_lem VType.str e = cc
not_void_lem VType.bool e = cc

unfoldable mutual
  pub no_void : Stmt → Bool
  no_void (if_stmt line c s) = no_void s
  no_void (if_else_stmt line c s t) = no_void s && no_void t
  no_void (while_stmt line c s) = no_void s
  no_void (return_stmt line e) = true
  no_void (break_stmt line) = true
  no_void (block_stmt body) = no_void_inside body
  no_void (expr_stmt e) = true
  no_void (null_stmt line) = true
  no_void (var_decl line x a s) = not_void a

  pub no_void_inside : Children → Bool
  no_void_inside no_children = true
  no_void_inside (child s ss) = no_void s && no_void_inside ss

unfoldable pub no_void_decl : Decl → Bool
unfolding no_void
no_void_decl (gvar_decl line x a s) = not_void a
no_void_decl (func_decl line x a ps body s) = no_void_inside body
no_void_decl (mfunc_decl line x body s) = no_void_inside body

unfoldable pub no_voids : Program → Bool
no_voids [] = true
no_voids (d ∷ ds) = no_void_decl d && no_voids ds

pub both : (a b : Bool) → (a && b) ≡ true → (a ≡ true) × (b ≡ true)
both true b e = (refl, e)
both false b e = cc
