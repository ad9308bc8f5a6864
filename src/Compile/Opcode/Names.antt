-- ===== src/Compile/Opcode/Names.antt =====
-- The table `opcodeNames` of internal/compile/compile.go and the method `String` that reads it.
use Prim.Native.String.{String}
use text.Mathlib.Text.{◌==◌ as str_eq}
use starlark_go.Common.{
  ℕ, ◌<◌, ◌≡◌, refl, ◌↔◌, inl, inr, false, get_elem?-none, Option, none, some, if◌then◌else◌,
  Option-cases,
}
use starlark_go.Compile.Opcode.{Opcode, opcode, opcodes}

unfoldable pub opcode_name : Opcode → String
opcode_name Opcode.nop = "nop"
opcode_name Opcode.dup = "dup"
opcode_name Opcode.dup2 = "dup2"
opcode_name Opcode.pop = "pop"
opcode_name Opcode.exch = "exch"
opcode_name Opcode.lt = "lt"
opcode_name Opcode.gt = "gt"
opcode_name Opcode.ge = "ge"
opcode_name Opcode.le = "le"
opcode_name Opcode.eql = "eql"
opcode_name Opcode.neq = "neq"
opcode_name Opcode.plus = "plus"
opcode_name Opcode.minus = "minus"
opcode_name Opcode.star = "star"
opcode_name Opcode.slash = "slash"
opcode_name Opcode.slashslash = "slashslash"
opcode_name Opcode.percent = "percent"
opcode_name Opcode.amp = "amp"
opcode_name Opcode.pipe = "pipe"
opcode_name Opcode.circumflex = "circumflex"
opcode_name Opcode.ltlt = "ltlt"
opcode_name Opcode.gtgt = "gtgt"
opcode_name Opcode.in_op = "in"
opcode_name Opcode.uplus = "uplus"
opcode_name Opcode.uminus = "uminus"
opcode_name Opcode.tilde = "tilde"
opcode_name Opcode.none = "none"
opcode_name Opcode.true = "true"
opcode_name Opcode.false = "false"
opcode_name Opcode.mandatory = "mandatory"
opcode_name Opcode.iterpush = "iterpush"
opcode_name Opcode.iterpop = "iterpop"
opcode_name Opcode.not = "not"
opcode_name Opcode.return = "return"
opcode_name Opcode.setindex = "setindex"
opcode_name Opcode.index = "index"
opcode_name Opcode.setdict = "setdict"
opcode_name Opcode.setdictuniq = "setdictuniq"
opcode_name Opcode.append = "append"
opcode_name Opcode.slice = "slice"
opcode_name Opcode.inplace_add = "inplace_add"
opcode_name Opcode.inplace_pipe = "inplace_pipe"
opcode_name Opcode.makedict = "makedict"
opcode_name Opcode.jmp = "jmp"
opcode_name Opcode.cjmp = "cjmp"
opcode_name Opcode.iterjmp = "iterjmp"
opcode_name Opcode.constant = "constant"
opcode_name Opcode.maketuple = "maketuple"
opcode_name Opcode.makelist = "makelist"
opcode_name Opcode.makefunc = "makefunc"
opcode_name Opcode.load = "load"
opcode_name Opcode.setlocal = "setlocal"
opcode_name Opcode.setglobal = "setglobal"
opcode_name Opcode.local = "local"
opcode_name Opcode.free = "free"
opcode_name Opcode.freecell = "freecell"
opcode_name Opcode.localcell = "localcell"
opcode_name Opcode.setlocalcell = "setlocalcell"
opcode_name Opcode.global = "global"
opcode_name Opcode.predeclared = "predeclared"
opcode_name Opcode.universal = "universal"
opcode_name Opcode.attr = "attr"
opcode_name Opcode.setfield = "setfield"
opcode_name Opcode.unpack = "unpack"
opcode_name Opcode.call = "call"
opcode_name Opcode.call_var = "call_var"
opcode_name Opcode.call_kw = "call_kw "
opcode_name Opcode.call_var_kw = "call_var_kw"

-- The name that the method finds for a byte; `none` stands for the text `illegal op (…)`.
unfoldable pub string : ℕ → Option String
unfolding opcode_name
string b = elim (opcode b) [
  | none ↦ none
  | some op ↦ if str_eq (opcode_name op) "" then none else some (opcode_name op)
]

IsNamed : (op : Opcode) → str_eq (opcode_name op) "" ≡ false
unfolding opcode_name
IsNamed Opcode.nop = refl
IsNamed Opcode.dup = refl
IsNamed Opcode.dup2 = refl
IsNamed Opcode.pop = refl
IsNamed Opcode.exch = refl
IsNamed Opcode.lt = refl
IsNamed Opcode.gt = refl
IsNamed Opcode.ge = refl
IsNamed Opcode.le = refl
IsNamed Opcode.eql = refl
IsNamed Opcode.neq = refl
IsNamed Opcode.plus = refl
IsNamed Opcode.minus = refl
IsNamed Opcode.star = refl
IsNamed Opcode.slash = refl
IsNamed Opcode.slashslash = refl
IsNamed Opcode.percent = refl
IsNamed Opcode.amp = refl
IsNamed Opcode.pipe = refl
IsNamed Opcode.circumflex = refl
IsNamed Opcode.ltlt = refl
IsNamed Opcode.gtgt = refl
IsNamed Opcode.in_op = refl
IsNamed Opcode.uplus = refl
IsNamed Opcode.uminus = refl
IsNamed Opcode.tilde = refl
IsNamed Opcode.none = refl
IsNamed Opcode.true = refl
IsNamed Opcode.false = refl
IsNamed Opcode.mandatory = refl
IsNamed Opcode.iterpush = refl
IsNamed Opcode.iterpop = refl
IsNamed Opcode.not = refl
IsNamed Opcode.return = refl
IsNamed Opcode.setindex = refl
IsNamed Opcode.index = refl
IsNamed Opcode.setdict = refl
IsNamed Opcode.setdictuniq = refl
IsNamed Opcode.append = refl
IsNamed Opcode.slice = refl
IsNamed Opcode.inplace_add = refl
IsNamed Opcode.inplace_pipe = refl
IsNamed Opcode.makedict = refl
IsNamed Opcode.jmp = refl
IsNamed Opcode.cjmp = refl
IsNamed Opcode.iterjmp = refl
IsNamed Opcode.constant = refl
IsNamed Opcode.maketuple = refl
IsNamed Opcode.makelist = refl
IsNamed Opcode.makefunc = refl
IsNamed Opcode.load = refl
IsNamed Opcode.setlocal = refl
IsNamed Opcode.setglobal = refl
IsNamed Opcode.local = refl
IsNamed Opcode.free = refl
IsNamed Opcode.freecell = refl
IsNamed Opcode.localcell = refl
IsNamed Opcode.setlocalcell = refl
IsNamed Opcode.global = refl
IsNamed Opcode.predeclared = refl
IsNamed Opcode.universal = refl
IsNamed Opcode.attr = refl
IsNamed Opcode.setfield = refl
IsNamed Opcode.unpack = refl
IsNamed Opcode.call = refl
IsNamed Opcode.call_var = refl
IsNamed Opcode.call_kw = refl
IsNamed Opcode.call_var_kw = refl

-- A byte beyond the last constant is no opcode.
opcode-none : (b : ℕ) → (opcode b ≡ none) ↔ (67 < b)
unfolding opcode
opcode-none b = get_elem?-none opcodes b

named : (op : Opcode) (b : ℕ) → opcode b ≡ some op → string b ≡ some (opcode_name op)
unfolding string opcode
named op b found = rw (found, IsNamed op) refl

-- `String` finds a name for every byte up to `OpcodeMax`, and for no other.
string-none : (b : ℕ) → (string b ≡ none) ↔ (67 < b)
unfolding string opcode
string-none b = elim (Option-cases (opcode b)) [
  | inl missing ↦ (λ _. (opcode-none b).0 missing, λ _. rw missing refl)
  | inr (op, found) ↦
      (λ h. let n = named op b found in cc, λ h. let gone = (opcode-none b).1 h in cc)
]
