-- ===== src/Common/Plain.antt =====
-- Trees as they are before the analyzer: no variable and no parameter is `void`, and none has a symbol.
use jmm_llvm.Prelude.{Bool, true, false, Option, none, some, List, [], ◌∷◌, ◌&&◌, ◌≡◌, refl}
use jmm_llvm.Common.Symbol.{Symbol}
use jmm_llvm.Common.Ast.{
  ParamDecl, Stmt, Children, if_stmt, if_else_stmt, while_stmt, return_stmt, break_stmt, block_stmt,
  expr_stmt, null_stmt, var_decl, no_children, child, Decl, gvar_decl, func_decl, mfunc_decl,
  Program,
}
use jmm_llvm.Common.Void.{not_void, no_void, no_void_inside, no_void_decl, no_voids, both}

abbrev pub unset : Option Symbol → Bool
unset none = true
unset (some s) = false

unfoldable mutual
  pub plain : Stmt → Bool
  plain (if_stmt line c s) = plain s
  plain (if_else_stmt line c s t) = plain s && plain t
  plain (while_stmt line c s) = plain s
  plain (return_stmt line e) = true
  plain (break_stmt line) = true
  plain (block_stmt body) = plain_inside body
  plain (expr_stmt e) = true
  plain (null_stmt line) = true
  plain (var_decl line x a s) = not_void a && unset s

  pub plain_inside : Children → Bool
  plain_inside no_children = true
  plain_inside (child s ss) = plain s && plain_inside ss

abbrev pub plain_param : ParamDecl → Bool
plain_param p = not_void p.type && unset p.symbol

unfoldable pub plain_params : List ParamDecl → Bool
plain_params [] = true
plain_params (p ∷ ps) = plain_param p && plain_params ps

unfoldable pub plain_decl : Decl → Bool
unfolding plain plain_params
plain_decl (gvar_decl line x a s) = not_void a && unset s
plain_decl (func_decl line x a ps body s) = (plain_params ps && plain_inside body) && unset s
plain_decl (mfunc_decl line x body s) = plain_inside body && unset s

unfoldable pub plains : Program → Bool
plains [] = true
plains (d ∷ ds) = plain_decl d && plains ds

pub both_full : {a b : Bool} → a ≡ true → b ≡ true → (a && b) ≡ true
both_full h k = rw (h, k) refl

mutual
  unfolding plain no_void

  plain-no_void : (s : Stmt) → plain s ≡ true → no_void s ≡ true
  plain-no_void (if_stmt line c s) e = plain-no_void s e
  plain-no_void (if_else_stmt line c s t) e =
      let (h, k) = both (plain s) (plain t) e in both_full (plain-no_void s h) (plain-no_void t k)
  plain-no_void (while_stmt line c s) e = plain-no_void s e
  plain-no_void (return_stmt line x) e = refl
  plain-no_void (break_stmt line) e = refl
  plain-no_void (block_stmt body) e = plain_inside-no_void body e
  plain-no_void (expr_stmt x) e = refl
  plain-no_void (null_stmt line) e = refl
  plain-no_void (var_decl line x a s) e = (both (not_void a) (unset s) e).0

  plain_inside-no_void : (ss : Children) → plain_inside ss ≡ true → no_void_inside ss ≡ true
  plain_inside-no_void no_children e = refl
  plain_inside-no_void (child s ss) e =
      let (h, k) = both (plain s) (plain_inside ss) e in
      both_full (plain-no_void s h) (plain_inside-no_void ss k)

plain_decl-no_void : (d : Decl) → plain_decl d ≡ true → no_void_decl d ≡ true
unfolding plain_decl no_void_decl
plain_decl-no_void (gvar_decl line x a s) e = (both (not_void a) (unset s) e).0
plain_decl-no_void (func_decl line x a ps body s) e =
    let (h, _) = both (plain_params ps && plain_inside body) (unset s) e in
    plain_inside-no_void body (both (plain_params ps) (plain_inside body) h).1
plain_decl-no_void (mfunc_decl line x body s) e =
    plain_inside-no_void body (both (plain_inside body) (unset s) e).0

pub plains-no_voids : (ds : Program) → plains ds ≡ true → no_voids ds ≡ true
unfolding plains no_voids
plains-no_voids [] e = refl
plains-no_voids (d ∷ ds) e =
    let (h, k) = both (plain_decl d) (plains ds) e in
    both_full (plain_decl-no_void d h) (plains-no_voids ds k)
