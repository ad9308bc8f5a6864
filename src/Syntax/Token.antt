-- ===== src/Syntax/Token.antt =====
-- The tokens of syntax/scan.go, in the order of its constants, with their numbers and names.
-- `IN`, `AS`, `IF`, `ELSE`, `WITH` and `IMPORT` have `_token` behind the name.
use Prim.Native.String.{String}
use starlark_go.Common.{ℕ}

pub data Token : Type 0 where
  illegal eof newline indent outdent ident int float string bytes plus minus star : Token
  slash slashslash percent amp pipe circumflex ltlt gtgt tilde at dot comma eq semi : Token
  colon lparen rparen lbrack rbrack lbrace rbrace lt gt ge le eql neq plus_eq minus_eq : Token
  star_eq slash_eq slashslash_eq percent_eq amp_eq pipe_eq circumflex_eq ltlt_eq : Token
  gtgt_eq starstar and break continue def elif else_token for if_token in_token lambda : Token
  load not not_in or pass return while as_token async await class del except finally : Token
  from global import_token is nonlocal raise try with_token yield : Token

-- The value of the constant.
unfoldable pub number : Token → ℕ
number Token.illegal = 0
number Token.eof = 1
number Token.newline = 2
number Token.indent = 3
number Token.outdent = 4
number Token.ident = 5
number Token.int = 6
number Token.float = 7
number Token.string = 8
number Token.bytes = 9
number Token.plus = 10
number Token.minus = 11
number Token.star = 12
number Token.slash = 13
number Token.slashslash = 14
number Token.percent = 15
number Token.amp = 16
number Token.pipe = 17
number Token.circumflex = 18
number Token.ltlt = 19
number Token.gtgt = 20
number Token.tilde = 21
number Token.at = 22
number Token.dot = 23
number Token.comma = 24
number Token.eq = 25
number Token.semi = 26
number Token.colon = 27
number Token.lparen = 28
number Token.rparen = 29
number Token.lbrack = 30
number Token.rbrack = 31
number Token.lbrace = 32
number Token.rbrace = 33
number Token.lt = 34
number Token.gt = 35
number Token.ge = 36
number Token.le = 37
number Token.eql = 38
number Token.neq = 39
number Token.plus_eq = 40
number Token.minus_eq = 41
number Token.star_eq = 42
number Token.slash_eq = 43
number Token.slashslash_eq = 44
number Token.percent_eq = 45
number Token.amp_eq = 46
number Token.pipe_eq = 47
number Token.circumflex_eq = 48
number Token.ltlt_eq = 49
number Token.gtgt_eq = 50
number Token.starstar = 51
number Token.and = 52
number Token.break = 53
number Token.continue = 54
number Token.def = 55
number Token.elif = 56
number Token.else_token = 57
number Token.for = 58
number Token.if_token = 59
number Token.in_token = 60
number Token.lambda = 61
number Token.load = 62
number Token.not = 63
number Token.not_in = 64
number Token.or = 65
number Token.pass = 66
number Token.return = 67
number Token.while = 68
number Token.as_token = 69
number Token.async = 70
number Token.await = 71
number Token.class = 72
number Token.del = 73
number Token.except = 74
number Token.finally = 75
number Token.from = 76
number Token.global = 77
number Token.import_token = 78
number Token.is = 79
number Token.nonlocal = 80
number Token.raise = 81
number Token.try = 82
number Token.with_token = 83
number Token.yield = 84

-- The table `tokenNames`. It has no entry for `BYTES`, whose element is the empty string.
unfoldable pub token_name : Token → String
token_name Token.illegal = "illegal token"
token_name Token.eof = "end of file"
token_name Token.newline = "newline"
token_name Token.indent = "indent"
token_name Token.outdent = "outdent"
token_name Token.ident = "identifier"
token_name Token.int = "int literal"
token_name Token.float = "float literal"
token_name Token.string = "string literal"
token_name Token.bytes = ""
token_name Token.plus = "+"
token_name Token.minus = "-"
token_name Token.star = "*"
token_name Token.slash = "/"
token_name Token.slashslash = "//"
token_name Token.percent = "%"
token_name Token.amp = "&"
token_name Token.pipe = "|"
token_name Token.circumflex = "^"
token_name Token.ltlt = "<<"
token_name Token.gtgt = ">>"
token_name Token.tilde = "~"
token_name Token.at = "@"
token_name Token.dot = "."
token_name Token.comma = ","
token_name Token.eq = "="
token_name Token.semi = ";"
token_name Token.colon = ":"
token_name Token.lparen = "("
token_name Token.rparen = ")"
token_name Token.lbrack = "["
token_name Token.rbrack = "]"
token_name Token.lbrace = "{"
token_name Token.rbrace = "}"
token_name Token.lt = "<"
token_name Token.gt = ">"
token_name Token.ge = ">="
token_name Token.le = "<="
token_name Token.eql = "=="
token_name Token.neq = "!="
token_name Token.plus_eq = "+="
token_name Token.minus_eq = "-="
token_name Token.star_eq = "*="
token_name Token.slash_eq = "/="
token_name Token.slashslash_eq = "//="
token_name Token.percent_eq = "%="
token_name Token.amp_eq = "&="
token_name Token.pipe_eq = "|="
token_name Token.circumflex_eq = "^="
token_name Token.ltlt_eq = "<<="
token_name Token.gtgt_eq = ">>="
token_name Token.starstar = "**"
token_name Token.and = "and"
token_name Token.break = "break"
token_name Token.continue = "continue"
token_name Token.def = "def"
token_name Token.elif = "elif"
token_name Token.else_token = "else"
token_name Token.for = "for"
token_name Token.if_token = "if"
token_name Token.in_token = "in"
token_name Token.lambda = "lambda"
token_name Token.load = "load"
token_name Token.not = "not"
token_name Token.not_in = "not in"
token_name Token.or = "or"
token_name Token.pass = "pass"
token_name Token.return = "return"
token_name Token.while = "while"
token_name Token.as_token = "as"
token_name Token.async = "async"
token_name Token.await = "await"
token_name Token.class = "class"
token_name Token.del = "del"
token_name Token.except = "except"
token_name Token.finally = "finally"
token_name Token.from = "from"
token_name Token.global = "global"
token_name Token.import_token = "import"
token_name Token.is = "is"
token_name Token.nonlocal = "nonlocal"
token_name Token.raise = "raise"
token_name Token.try = "try"
token_name Token.with_token = "with"
token_name Token.yield = "yield"
