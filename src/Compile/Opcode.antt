-- ===== src/Compile/Opcode.antt =====
-- The opcodes of internal/compile/compile.go, in the order of its constants. `IN` is `in_op`.
pub mod Effects
pub mod Pictures
pub mod Names
use starlark_go.Common.{ℕ, Bool, List, [], ◌∷◌, Option, some, get_elem?, leb, ◌≡◌, refl}

pub data Opcode : Type 0 where
  nop dup dup2 pop exch lt gt ge le eql neq plus minus star slash slashslash percent : Opcode
  amp pipe circumflex ltlt gtgt in_op uplus uminus tilde none true false mandatory : Opcode
  iterpush iterpop not return setindex index setdict setdictuniq append slice : Opcode
  inplace_add inplace_pipe makedict jmp cjmp iterjmp constant maketuple makelist : Opcode
  makefunc load setlocal setglobal local free freecell localcell setlocalcell global : Opcode
  predeclared universal attr setfield unpack call call_var call_kw call_var_kw : Opcode

-- `Opcode(b)` of a byte.
abbrev pub opcodes : List Opcode
opcodes =
    Opcode.nop ∷ Opcode.dup ∷ Opcode.dup2 ∷ Opcode.pop ∷ Opcode.exch ∷ Opcode.lt ∷ Opcode.gt
    ∷ Opcode.ge ∷ Opcode.le ∷ Opcode.eql ∷ Opcode.neq ∷ Opcode.plus ∷ Opcode.minus ∷ Opcode.star
    ∷ Opcode.slash ∷ Opcode.slashslash ∷ Opcode.percent ∷ Opcode.amp ∷ Opcode.pipe
    ∷ Opcode.circumflex ∷ Opcode.ltlt ∷ Opcode.gtgt ∷ Opcode.in_op ∷ Opcode.uplus ∷ Opcode.uminus
    ∷ Opcode.tilde ∷ Opcode.none ∷ Opcode.true ∷ Opcode.false ∷ Opcode.mandatory ∷ Opcode.iterpush
    ∷ Opcode.iterpop ∷ Opcode.not ∷ Opcode.return ∷ Opcode.setindex ∷ Opcode.index ∷ Opcode.setdict
    ∷ Opcode.setdictuniq ∷ Opcode.append ∷ Opcode.slice ∷ Opcode.inplace_add ∷ Opcode.inplace_pipe
    ∷ Opcode.makedict ∷ Opcode.jmp ∷ Opcode.cjmp ∷ Opcode.iterjmp ∷ Opcode.constant
    ∷ Opcode.maketuple ∷ Opcode.makelist ∷ Opcode.makefunc ∷ Opcode.load ∷ Opcode.setlocal
    ∷ Opcode.setglobal ∷ Opcode.local ∷ Opcode.free ∷ Opcode.freecell ∷ Opcode.localcell
    ∷ Opcode.setlocalcell ∷ Opcode.global ∷ Opcode.predeclared ∷ Opcode.universal ∷ Opcode.attr
    ∷ Opcode.setfield ∷ Opcode.unpack ∷ Opcode.call ∷ Opcode.call_var ∷ Opcode.call_kw
    ∷ Opcode.call_var_kw ∷ []

unfoldable pub opcode : ℕ → Option Opcode
opcode b = get_elem? opcodes b

-- The value of the constant.
unfoldable pub code_of : Opcode → ℕ
code_of Opcode.nop = 0
code_of Opcode.dup = 1
code_of Opcode.dup2 = 2
code_of Opcode.pop = 3
code_of Opcode.exch = 4
code_of Opcode.lt = 5
code_of Opcode.gt = 6
code_of Opcode.ge = 7
code_of Opcode.le = 8
code_of Opcode.eql = 9
code_of Opcode.neq = 10
code_of Opcode.plus = 11
code_of Opcode.minus = 12
code_of Opcode.star = 13
code_of Opcode.slash = 14
code_of Opcode.slashslash = 15
code_of Opcode.percent = 16
code_of Opcode.amp = 17
code_of Opcode.pipe = 18
code_of Opcode.circumflex = 19
code_of Opcode.ltlt = 20
code_of Opcode.gtgt = 21
code_of Opcode.in_op = 22
code_of Opcode.uplus = 23
code_of Opcode.uminus = 24
code_of Opcode.tilde = 25
code_of Opcode.none = 26
code_of Opcode.true = 27
code_of Opcode.false = 28
code_of Opcode.mandatory = 29
code_of Opcode.iterpush = 30
code_of Opcode.iterpop = 31
code_of Opcode.not = 32
code_of Opcode.return = 33
code_of Opcode.setindex = 34
code_of Opcode.index = 35
code_of Opcode.setdict = 36
code_of Opcode.setdictuniq = 37
code_of Opcode.append = 38
code_of Opcode.slice = 39
code_of Opcode.inplace_add = 40
code_of Opcode.inplace_pipe = 41
code_of Opcode.makedict = 42
code_of Opcode.jmp = 43
code_of Opcode.cjmp = 44
code_of Opcode.iterjmp = 45
code_of Opcode.constant = 46
code_of Opcode.maketuple = 47
code_of Opcode.makelist = 48
code_of Opcode.makefunc = 49
code_of Opcode.load = 50
code_of Opcode.setlocal = 51
code_of Opcode.setglobal = 52
code_of Opcode.local = 53
code_of Opcode.free = 54
code_of Opcode.freecell = 55
code_of Opcode.localcell = 56
code_of Opcode.setlocalcell = 57
code_of Opcode.global = 58
code_of Opcode.predeclared = 59
code_of Opcode.universal = 60
code_of Opcode.attr = 61
code_of Opcode.setfield = 62
code_of Opcode.unpack = 63
code_of Opcode.call = 64
code_of Opcode.call_var = 65
code_of Opcode.call_kw = 66
code_of Opcode.call_var_kw = 67

-- `op >= OpcodeArgMin`
unfoldable pub has_arg : Opcode → Bool
unfolding code_of
has_arg op = leb (code_of Opcode.jmp) (code_of op)

-- A constant stands at its value.
pub opcode-code_of : (op : Opcode) → opcode (code_of op) ≡ some op
unfolding opcode code_of
opcode-code_of Opcode.nop = refl
opcode-code_of Opcode.dup = refl
opcode-code_of Opcode.dup2 = refl
opcode-code_of Opcode.pop = refl
opcode-code_of Opcode.exch = refl
opcode-code_of Opcode.lt = refl
opcode-code_of Opcode.gt = refl
opcode-code_of Opcode.ge = refl
opcode-code_of Opcode.le = refl
opcode-code_of Opcode.eql = refl
opcode-code_of Opcode.neq = refl
opcode-code_of Opcode.plus = refl
opcode-code_of Opcode.minus = refl
opcode-code_of Opcode.star = refl
opcode-code_of Opcode.slash = refl
opcode-code_of Opcode.slashslash = refl
opcode-code_of Opcode.percent = refl
opcode-code_of Opcode.amp = refl
opcode-code_of Opcode.pipe = refl
opcode-code_of Opcode.circumflex = refl
opcode-code_of Opcode.ltlt = refl
opcode-code_of Opcode.gtgt = refl
opcode-code_of Opcode.in_op = refl
opcode-code_of Opcode.uplus = refl
opcode-code_of Opcode.uminus = refl
opcode-code_of Opcode.tilde = refl
opcode-code_of Opcode.none = refl
opcode-code_of Opcode.true = refl
opcode-code_of Opcode.false = refl
opcode-code_of Opcode.mandatory = refl
opcode-code_of Opcode.iterpush = refl
opcode-code_of Opcode.iterpop = refl
opcode-code_of Opcode.not = refl
opcode-code_of Opcode.return = refl
opcode-code_of Opcode.setindex = refl
opcode-code_of Opcode.index = refl
opcode-code_of Opcode.setdict = refl
opcode-code_of Opcode.setdictuniq = refl
opcode-code_of Opcode.append = refl
opcode-code_of Opcode.slice = refl
opcode-code_of Opcode.inplace_add = refl
opcode-code_of Opcode.inplace_pipe = refl
opcode-code_of Opcode.makedict = refl
opcode-code_of Opcode.jmp = refl
opcode-code_of Opcode.cjmp = refl
opcode-code_of Opcode.iterjmp = refl
opcode-code_of Opcode.constant = refl
opcode-code_of Opcode.maketuple = refl
opcode-code_of Opcode.makelist = refl
opcode-code_of Opcode.makefunc = refl
opcode-code_of Opcode.load = refl
opcode-code_of Opcode.setlocal = refl
opcode-code_of Opcode.setglobal = refl
opcode-code_of Opcode.local = refl
opcode-code_of Opcode.free = refl
opcode-code_of Opcode.freecell = refl
opcode-code_of Opcode.localcell = refl
opcode-code_of Opcode.setlocalcell = refl
opcode-code_of Opcode.global = refl
opcode-code_of Opcode.predeclared = refl
opcode-code_of Opcode.universal = refl
opcode-code_of Opcode.attr = refl
opcode-code_of Opcode.setfield = refl
opcode-code_of Opcode.unpack = refl
opcode-code_of Opcode.call = refl
opcode-code_of Opcode.call_var = refl
opcode-code_of Opcode.call_kw = refl
opcode-code_of Opcode.call_var_kw = refl
