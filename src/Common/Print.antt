-- ===== src/Common/Print.antt =====
-- common/util.cpp: the texts of tokens, types and operators.
use jmm_llvm.Prelude.{String, ◌≡◌, refl}
use jmm_llvm.Common.Token.{Token}
use jmm_llvm.Common.Types.{VType, Op}

unfoldable pub token_to_str : Token → String
token_to_str Token.t_eof = "EOF"
token_to_str Token.id = "ID"
token_to_str Token.num = "NUM"
token_to_str Token.strlit = "STR"
token_to_str Token.str = "str"
token_to_str Token.true_kw = "true"
token_to_str Token.false_kw = "false"
token_to_str Token.bool_kw = "bool"
token_to_str Token.int_kw = "int"
token_to_str Token.void_kw = "void"
token_to_str Token.if_kw = "if"
token_to_str Token.else_kw = "else"
token_to_str Token.while_kw = "while"
token_to_str Token.break_kw = "break"
token_to_str Token.return_kw = "return"
token_to_str Token.oparen = "("
token_to_str Token.cparen = ")"
token_to_str Token.obrck = "{"
token_to_str Token.cbrck = "}"
token_to_str Token.minus = "-"
token_to_str Token.plus = "+"
token_to_str Token.inc = "++"
token_to_str Token.dec = "--"
token_to_str Token.mult = "*"
token_to_str Token.div = "/"
token_to_str Token.modulo = "%"
token_to_str Token.xor = "^"
token_to_str Token.gt = ">"
token_to_str Token.lt = "<"
token_to_str Token.gteq = ">="
token_to_str Token.lteq = "<="
token_to_str Token.eq = "=="
token_to_str Token.not = "!"
token_to_str Token.neq = "!="
token_to_str Token.assign = "="
token_to_str Token.land = "&&"
token_to_str Token.lor = "||"
token_to_str Token.band = "&"
token_to_str Token.bor = "|"
token_to_str Token.comma = ","
token_to_str Token.semicol = ";"
token_to_str _ = "NONE"

-- `operator<<` on a token, which has a table of its own.
unfoldable pub print_token : Token → String
print_token Token.t_eof = "EOF"
print_token Token.id = "ID"
print_token Token.num = "NUM"
print_token Token.strlit = "STR"
print_token Token.str = "str"
print_token Token.true_kw = "true"
print_token Token.false_kw = "false"
print_token Token.bool_kw = "bool"
print_token Token.int_kw = "int"
print_token Token.void_kw = "void"
print_token Token.if_kw = "if"
print_token Token.else_kw = "else"
print_token Token.while_kw = "while"
print_token Token.break_kw = "break"
print_token Token.return_kw = "return"
print_token Token.oparen = "("
print_token Token.cparen = ")"
print_token Token.obrck = "{"
print_token Token.cbrck = "}"
print_token Token.minus = "-"
print_token Token.plus = "+"
print_token Token.inc = "++"
print_token Token.dec = "--"
print_token Token.mult = "*"
print_token Token.div = "/"
print_token Token.modulo = "%"
print_token Token.xor = "^"
print_token Token.gt = ">"
print_token Token.lt = "<"
print_token Token.gteq = ">="
print_token Token.lteq = "<="
print_token Token.eq = "=="
print_token Token.not = "!"
print_token Token.neq = "!="
print_token Token.assign = "="
print_token Token.land = "&&"
print_token Token.lor = "||"
print_token Token.band = "&"
print_token Token.bor = "|"
print_token Token.comma = ","
print_token Token.semicol = ";"
print_token _ = "NONE"

-- The two tables agree.
pub print_token-token_to_str : (t : Token) → print_token t ≡ token_to_str t
unfolding print_token token_to_str
print_token-token_to_str Token.t_eof = refl
print_token-token_to_str Token.id = refl
print_token-token_to_str Token.num = refl
print_token-token_to_str Token.strlit = refl
print_token-token_to_str Token.str = refl
print_token-token_to_str Token.true_kw = refl
print_token-token_to_str Token.false_kw = refl
print_token-token_to_str Token.bool_kw = refl
print_token-token_to_str Token.int_kw = refl
print_token-token_to_str Token.void_kw = refl
print_token-token_to_str Token.if_kw = refl
print_token-token_to_str Token.else_kw = refl
print_token-token_to_str Token.while_kw = refl
print_token-token_to_str Token.break_kw = refl
print_token-token_to_str Token.return_kw = refl
print_token-token_to_str Token.oparen = refl
print_token-token_to_str Token.cparen = refl
print_token-token_to_str Token.obrck = refl
print_token-token_to_str Token.cbrck = refl
print_token-token_to_str Token.minus = refl
print_token-token_to_str Token.plus = refl
print_token-token_to_str Token.inc = refl
print_token-token_to_str Token.dec = refl
print_token-token_to_str Token.mult = refl
print_token-token_to_str Token.div = refl
print_token-token_to_str Token.modulo = refl
print_token-token_to_str Token.xor = refl
print_token-token_to_str Token.gt = refl
print_token-token_to_str Token.lt = refl
print_token-token_to_str Token.gteq = refl
print_token-token_to_str Token.lteq = refl
print_token-token_to_str Token.eq = refl
print_token-token_to_str Token.not = refl
print_token-token_to_str Token.neq = refl
print_token-token_to_str Token.assign = refl
print_token-token_to_str Token.land = refl
print_token-token_to_str Token.lor = refl
print_token-token_to_str Token.band = refl
print_token-token_to_str Token.bor = refl
print_token-token_to_str Token.comma = refl
print_token-token_to_str Token.semicol = refl
print_token-token_to_str _ = refl

unfoldable pub vtype_to_str : VType → String
vtype_to_str VType.int = "Int"
vtype_to_str VType.str = "Str"
vtype_to_str VType.bool = "Bool"
vtype_to_str VType.void = "Void"

unfoldable pub op_to_str : Op → String
op_to_str Op.band = "&"
op_to_str Op.bor = "|"
op_to_str Op.land = "&&"
op_to_str Op.lor = "||"
op_to_str Op.xor = "^"
op_to_str Op.add = "+"
op_to_str Op.postinc = "Post ++"
op_to_str Op.postdec = "Post --"
op_to_str Op.preinc = "Pre ++"
op_to_str Op.predec = "Pre --"
op_to_str Op.sub = "-"
op_to_str Op.mult = "*"
op_to_str Op.div = "/"
op_to_str Op.modulo = "%"
op_to_str Op.not = "!"
op_to_str Op.eq = "=="
op_to_str Op.ne = "!="
op_to_str Op.gt = ">"
op_to_str Op.lt = "<"
op_to_str Op.ge = ">="
op_to_str Op.le = "<="
op_to_str Op.lshift = "<<"
op_to_str Op.rshift = ">>"
