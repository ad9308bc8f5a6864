-- ===== src/Vm/Tokens.antt =====
-- The tokens that the operator instructions of starlark/interp.go hand to the evaluator. The opcodes
-- and the tokens are numbered in the same order, "order must match Token" in
-- internal/compile/compile.go.
use starlark_go.Common.{ℕ, ◌≡◌, refl, Option, none, some, subst}
use starlark_go.Compile.Opcode.{Opcode}
use starlark_go.Syntax.Token.{Token, number}
use starlark_go.Vm.Operators.{compare_token, binary_token, unary_token}

pub data Kind : Type 0 where
  comparing computing single : Kind

-- The operator that an opcode is named after.
unfoldable pub operator : Opcode → Option (Kind × Token)
operator Opcode.lt = some (Kind.comparing, Token.lt)
operator Opcode.gt = some (Kind.comparing, Token.gt)
operator Opcode.ge = some (Kind.comparing, Token.ge)
operator Opcode.le = some (Kind.comparing, Token.le)
operator Opcode.eql = some (Kind.comparing, Token.eql)
operator Opcode.neq = some (Kind.comparing, Token.neq)
operator Opcode.plus = some (Kind.computing, Token.plus)
operator Opcode.minus = some (Kind.computing, Token.minus)
operator Opcode.star = some (Kind.computing, Token.star)
operator Opcode.slash = some (Kind.computing, Token.slash)
operator Opcode.slashslash = some (Kind.computing, Token.slashslash)
operator Opcode.percent = some (Kind.computing, Token.percent)
operator Opcode.amp = some (Kind.computing, Token.amp)
operator Opcode.pipe = some (Kind.computing, Token.pipe)
operator Opcode.circumflex = some (Kind.computing, Token.circumflex)
operator Opcode.ltlt = some (Kind.computing, Token.ltlt)
operator Opcode.gtgt = some (Kind.computing, Token.gtgt)
operator Opcode.in_op = some (Kind.computing, Token.in_token)
operator Opcode.uplus = some (Kind.single, Token.plus)
operator Opcode.uminus = some (Kind.single, Token.minus)
operator Opcode.tilde = some (Kind.single, Token.tilde)
operator _ = none

-- The token that the instruction computes: `Compare`, `Binary` or `Unary` is called with it.
unfoldable pub token_passed : Kind → Opcode → ℕ
unfolding compare_token binary_token unary_token
token_passed Kind.comparing op = compare_token op
token_passed Kind.computing op = binary_token op
token_passed Kind.single op = unary_token op

Agrees : Option (Kind × Token) → Opcode → Type 0
Agrees none op = Unit {0}
Agrees (some (kind, t)) op = token_passed kind op ≡ number t

operator-Agrees : (op : Opcode) → Agrees (operator op) op
unfolding Agrees operator token_passed number
operator-Agrees Opcode.nop = tt
operator-Agrees Opcode.dup = tt
operator-Agrees Opcode.dup2 = tt
operator-Agrees Opcode.pop = tt
operator-Agrees Opcode.exch = tt
operator-Agrees Opcode.lt = refl
operator-Agrees Opcode.gt = refl
operator-Agrees Opcode.ge = refl
operator-Agrees Opcode.le = refl
operator-Agrees Opcode.eql = refl
operator-Agrees Opcode.neq = refl
operator-Agrees Opcode.plus = refl
operator-Agrees Opcode.minus = refl
operator-Agrees Opcode.star = refl
operator-Agrees Opcode.slash = refl
operator-Agrees Opcode.slashslash = refl
operator-Agrees Opcode.percent = refl
operator-Agrees Opcode.amp = refl
operator-Agrees Opcode.pipe = refl
operator-Agrees Opcode.circumflex = refl
operator-Agrees Opcode.ltlt = refl
operator-Agrees Opcode.gtgt = refl
operator-Agrees Opcode.in_op = refl
operator-Agrees Opcode.uplus = refl
operator-Agrees Opcode.uminus = refl
operator-Agrees Opcode.tilde = refl
operator-Agrees Opcode.none = tt
operator-Agrees Opcode.true = tt
operator-Agrees Opcode.false = tt
operator-Agrees Opcode.mandatory = tt
operator-Agrees Opcode.iterpush = tt
operator-Agrees Opcode.iterpop = tt
operator-Agrees Opcode.not = tt
operator-Agrees Opcode.return = tt
operator-Agrees Opcode.setindex = tt
operator-Agrees Opcode.index = tt
operator-Agrees Opcode.setdict = tt
operator-Agrees Opcode.setdictuniq = tt
operator-Agrees Opcode.append = tt
operator-Agrees Opcode.slice = tt
operator-Agrees Opcode.inplace_add = tt
operator-Agrees Opcode.inplace_pipe = tt
operator-Agrees Opcode.makedict = tt
operator-Agrees Opcode.jmp = tt
operator-Agrees Opcode.cjmp = tt
operator-Agrees Opcode.iterjmp = tt
operator-Agrees Opcode.constant = tt
operator-Agrees Opcode.maketuple = tt
operator-Agrees Opcode.makelist = tt
operator-Agrees Opcode.makefunc = tt
operator-Agrees Opcode.load = tt
operator-Agrees Opcode.setlocal = tt
operator-Agrees Opcode.setglobal = tt
operator-Agrees Opcode.local = tt
operator-Agrees Opcode.free = tt
operator-Agrees Opcode.freecell = tt
operator-Agrees Opcode.localcell = tt
operator-Agrees Opcode.setlocalcell = tt
operator-Agrees Opcode.global = tt
operator-Agrees Opcode.predeclared = tt
operator-Agrees Opcode.universal = tt
operator-Agrees Opcode.attr = tt
operator-Agrees Opcode.setfield = tt
operator-Agrees Opcode.unpack = tt
operator-Agrees Opcode.call = tt
operator-Agrees Opcode.call_var = tt
operator-Agrees Opcode.call_kw = tt
operator-Agrees Opcode.call_var_kw = tt

-- The token that an operator instruction computes from its opcode, in 8 bits, is the number of the
-- token that the opcode is named after.
pub operator-token_passed :
    (op : Opcode) (kind : Kind) (t : Token)
    → operator op ≡ some (kind, t)
    → token_passed kind op ≡ number t
unfolding Agrees
operator-token_passed op kind t e = subst (λ o. Agrees o op) e (operator-Agrees op)
