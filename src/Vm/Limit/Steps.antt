-- ===== src/Vm/Limit/Steps.antt =====
-- The loop of starlark/interp.go ends within the thread's limit of steps.
use Prim.Native.String.{String}
use starlark_go.Common.{ℕ, ◌<◌, ◌≤◌, ◌≡◌, refl, Bool, true, false, if◌then◌else◌, List, none, some}
use starlark_go.Compile.Opcode.{Opcode}
use starlark_go.Vm.{Host, StringDict, Reply, Thread, Function, Frame, Next, next, failed, panicked}
use starlark_go.Vm.Machine.{step_cjmp, step}
use starlark_go.Vm.Limit.{Onward, pop1-Onward, push-Onward}
use starlark_go.Vm.Limit.Operators
use starlark_go.Vm.Limit.Items
use starlark_go.Vm.Limit.Names
use starlark_go.Vm.Limit.Call
use starlark_go.Vm.Limit.Call.{Shrinks}

-- A thread that is not cancelled has taken no fewer steps than before, and is within its limit.
abbrev pub Within : Thread → Thread → Type 0
Within before after =
    after.cancel_reason ≡ none
    → (after.max_steps ≡ before.max_steps)
      × (before.steps ≤ after.steps)
      × (after.steps < after.max_steps)

-- What the machine counts on: iterators come to an end, calls and loads keep count of the steps, and
-- a callback that is set cancels the thread.
pub record Limited (h : Host) : Type 0 where
  pub shrinks : Shrinks h
  pub called :
      (t : Thread) (hp : h.Heap) (f : h.Value) (args : List h.Value)
      (kvs : List (h.Value × h.Value))
      → t.steps < t.max_steps
      → Within t (h.call t hp f args kvs).0
  pub loaded :
      (load : Thread → h.Heap → String → Thread × Reply h.Heap h.Error (StringDict h.Value))
      (t : Thread) (hp : h.Heap) (name : String)
      → h.load ≡ some load
      → t.steps < t.max_steps
      → Within t (load t hp name).0
  pub stopped :
      (on_max : Thread → h.Heap → Thread × h.Heap) (t : Thread) (hp : h.Heap)
      → h.on_max_steps ≡ some on_max
      → ¬ ((on_max t hp).0.cancel_reason ≡ none)

module _ {h : Host} (T : Thread → Type 0) where
  open h use {Value}

  jumped-Onward :
      (b : Bool) (arg : ℕ) (s : List Value) (fr : Frame h)
      → T fr.thread
      → Onward T (next s (if b then record fr { pc = arg } else fr))
  jumped-Onward true arg s fr t = t
  jumped-Onward false arg s fr t = t

  cjmp-Onward :
      (arg : ℕ) (s : List Value) (fr : Frame h) → T fr.thread → Onward T (step_cjmp arg s fr)
  unfolding step_cjmp
  cjmp-Onward arg s fr t =
      pop1-Onward T s fr _ (λ x rest. jumped-Onward (h.truth fr.heap x) arg rest fr t)

module _ {h : Host} (T : Thread → Type 0) (shrinks : Shrinks h) (fn : Function h) (s : List h.Value)
    (fr : Frame h) (t : T fr.thread)
    (called : (hp : h.Heap) (f : h.Value) (args : List h.Value) (kvs : List (h.Value × h.Value))
      → T (h.call fr.thread hp f args kvs).0)
    (loaded : (load : Thread → h.Heap → String → Thread × Reply h.Heap h.Error (StringDict h.Value))
        (name : String)
      → h.load ≡ some load
      → T (load fr.thread fr.heap name).0) where
  -- The thread is the same, or the one that a call or a load leaves.
  pub step-Onward : (op : Opcode) (arg : ℕ) → Onward T (step fn op arg s fr)
  unfolding step
  step-Onward Opcode.nop arg = t
  step-Onward Opcode.dup arg = Operators.dup-Onward T fn s fr t
  step-Onward Opcode.dup2 arg = Operators.dup2-Onward T fn s fr t
  step-Onward Opcode.pop arg = Operators.pop-Onward T fn s fr t
  step-Onward Opcode.exch arg = Operators.exch-Onward T fn s fr t
  step-Onward Opcode.lt arg = Operators.compare-Onward T fn s fr t Opcode.lt
  step-Onward Opcode.gt arg = Operators.compare-Onward T fn s fr t Opcode.gt
  step-Onward Opcode.ge arg = Operators.compare-Onward T fn s fr t Opcode.ge
  step-Onward Opcode.le arg = Operators.compare-Onward T fn s fr t Opcode.le
  step-Onward Opcode.eql arg = Operators.compare-Onward T fn s fr t Opcode.eql
  step-Onward Opcode.neq arg = Operators.compare-Onward T fn s fr t Opcode.neq
  step-Onward Opcode.plus arg = Operators.binary-Onward T fn s fr t Opcode.plus
  step-Onward Opcode.minus arg = Operators.binary-Onward T fn s fr t Opcode.minus
  step-Onward Opcode.star arg = Operators.binary-Onward T fn s fr t Opcode.star
  step-Onward Opcode.slash arg = Operators.binary-Onward T fn s fr t Opcode.slash
  step-Onward Opcode.slashslash arg = Operators.binary-Onward T fn s fr t Opcode.slashslash
  step-Onward Opcode.percent arg = Operators.binary-Onward T fn s fr t Opcode.percent
  step-Onward Opcode.amp arg = Operators.binary-Onward T fn s fr t Opcode.amp
  step-Onward Opcode.pipe arg = Operators.binary-Onward T fn s fr t Opcode.pipe
  step-Onward Opcode.circumflex arg = Operators.binary-Onward T fn s fr t Opcode.circumflex
  step-Onward Opcode.ltlt arg = Operators.binary-Onward T fn s fr t Opcode.ltlt
  step-Onward Opcode.gtgt arg = Operators.binary-Onward T fn s fr t Opcode.gtgt
  step-Onward Opcode.in_op arg = Operators.binary-Onward T fn s fr t Opcode.in_op
  step-Onward Opcode.uplus arg = Operators.unary-Onward T fn s fr t Opcode.uplus
  step-Onward Opcode.uminus arg = Operators.unary-Onward T fn s fr t Opcode.uminus
  step-Onward Opcode.tilde arg = Operators.unary-Onward T fn s fr t Opcode.tilde
  step-Onward Opcode.none arg = push-Onward T fn h.none_value s fr t
  step-Onward Opcode.true arg = push-Onward T fn (h.bool true) s fr t
  step-Onward Opcode.false arg = push-Onward T fn (h.bool false) s fr t
  step-Onward Opcode.mandatory arg = push-Onward T fn h.mandatory s fr t
  step-Onward Opcode.iterpush arg = Items.iterpush-Onward T s fr t
  step-Onward Opcode.iterpop arg = Items.iterpop-Onward T s fr t
  step-Onward Opcode.not arg = Operators.not-Onward T fn s fr t
  step-Onward Opcode.return arg = Operators.return-Onward T fn s fr t
  step-Onward Opcode.setindex arg = Items.setindex-Onward T s fr t
  step-Onward Opcode.index arg = Items.index-Onward T fn s fr t
  step-Onward Opcode.setdict arg = Items.setdict-Onward T s fr t Opcode.setdict
  step-Onward Opcode.setdictuniq arg = Items.setdict-Onward T s fr t Opcode.setdictuniq
  step-Onward Opcode.append arg = Items.append-Onward T s fr t
  step-Onward Opcode.slice arg = Items.slice-Onward T fn s fr t
  step-Onward Opcode.inplace_add arg = Operators.inplace_add-Onward T fn s fr t
  step-Onward Opcode.inplace_pipe arg = Operators.inplace_pipe-Onward T fn s fr t
  step-Onward Opcode.makedict arg = Items.makedict-Onward T fn s fr t
  step-Onward Opcode.jmp arg = t
  step-Onward Opcode.cjmp arg = cjmp-Onward T arg s fr t
  step-Onward Opcode.iterjmp arg = Items.iterjmp-Onward T fn s fr t arg
  step-Onward Opcode.constant arg = Names.constant-Onward T fn s fr t arg
  step-Onward Opcode.maketuple arg = Items.maketuple-Onward T fn s fr t arg
  step-Onward Opcode.makelist arg = Items.makelist-Onward T fn s fr t arg
  step-Onward Opcode.makefunc arg = Names.makefunc-Onward T fn s fr t arg
  step-Onward Opcode.load arg = Names.load-Onward T arg s fr loaded
  step-Onward Opcode.setlocal arg = Names.setlocal-Onward T s fr t arg
  step-Onward Opcode.setglobal arg = Names.setglobal-Onward T s fr t arg
  step-Onward Opcode.local arg = Names.local-Onward T fn s fr t arg
  step-Onward Opcode.free arg = Names.free-Onward T fn s fr t arg
  step-Onward Opcode.freecell arg = Names.freecell-Onward T fn s fr t arg
  step-Onward Opcode.localcell arg = Names.localcell-Onward T fn s fr t arg
  step-Onward Opcode.setlocalcell arg = Names.setlocalcell-Onward T s fr t arg
  step-Onward Opcode.global arg = Names.global-Onward T fn s fr t arg
  step-Onward Opcode.predeclared arg = Names.predeclared-Onward T fn s fr t arg
  step-Onward Opcode.universal arg = Names.universal-Onward T fn s fr t arg
  step-Onward Opcode.attr arg = Items.attr-Onward T fn s fr t arg
  step-Onward Opcode.setfield arg = Items.setfield-Onward T fn s fr t arg
  step-Onward Opcode.unpack arg = Items.unpack-Onward T fn s fr t arg
  step-Onward Opcode.call arg =
      Call.call-Onward T shrinks fr.thread called Opcode.call arg s fr refl
  step-Onward Opcode.call_var arg =
      Call.call-Onward T shrinks fr.thread called Opcode.call_var arg s fr refl
  step-Onward Opcode.call_kw arg =
      Call.call-Onward T shrinks fr.thread called Opcode.call_kw arg s fr refl
  step-Onward Opcode.call_var_kw arg =
      Call.call-Onward T shrinks fr.thread called Opcode.call_var_kw arg s fr refl

-- The loop is over: no further round, and no iterator without an end.
abbrev pub Over : {h : Host} → Next h → Type 0
Over (next s fr) = ⊥
Over (Next.spinning fr) = ⊥
Over (Next.returned v fr) = Unit {0}
Over (failed e fr) = Unit {0}
Over (panicked p fr) = Unit {0}
Over (Next.below_bottom fr) = Unit {0}
