-- ===== src/Lib.antt =====
-- Starlark in Go, with Python-style classes: a verification library.
--
-- The program is an interpreter. syntax/ scans and parses a file, and at the end lowers classes and
-- decorators to ordinary functions and calls (syntax/classes.go). resolve/ binds the names,
-- internal/compile generates byte code with a table of source positions, and starlark/interp.go runs it
-- on the values of starlark/. Of these, dict and set stand on the table of starlark/hashtable.go, and
-- starlark/class.go and starlark/classbuiltins.go hold the objects that a lowered class makes at run
-- time: `$make_class` computes the resolution order, which attribute access, `super` and `isinstance`
-- then read.
--
-- The files:
--   Common: numbers, lists, tests and the bit operations that the other modules share.
--   Syntax: Token is the tokens of syntax/scan.go. The parent is the part of the tree of
--     syntax/syntax.go that the lowering reads and builds, and Syntax/Desugar is syntax/classes.go
--     (`desugarClasses` is `desugar_classes`, `stmts` is `lower_all`, `stmt` and `class` are `lower`).
--     Positions are opaque, and so are the expressions and statements that the lowering carries
--     along. A builder's name is a constructor with its number.
--   Compile: Operand is `addUint32` and `argLen` of internal/compile/compile.go with the operand loop of
--     `CallInternal` in starlark/interp.go; LineTable is the encoder in `generate`,
--     `decodeLNT` and the search of `Position`.
--     Opcode is the opcodes with the tables `opcodeNames` and `stackEffect` and the method
--     `stackeffect`; Pictures holds the stack pictures of the comments beside the opcodes.
--   Vm: the loop of `CallInternal` in starlark/interp.go. The operand stack is a list; `Host` is what
--     the machine asks of values, the heap and the thread. The instructions stand in Operators, Call,
--     Iterators, Items and Names, and Machine has the switch `step`, the fetch, the count of steps, the
--     rounds (`cycle`, `run`) and the deferred clean-up (`close`). Recursion is the check of calls at
--     the start. Stack relates the instructions to their pictures, Limit to the thread's steps.
--   Args: `setArgs` and `findParam` of starlark/eval.go. The slots of the locals are a function of the
--     index. The theorems describe a function by the number of parameters that may be positional.
--   Format: `interpolate` of starlark/eval.go. Strings are lists of bytes; what fmt and unicode/utf8
--     write is a parameter. Rendering relates it to a list of pieces, by way of the single rounds in
--     Rounds; Total has the fuel of the loop.
--   Hashtable: starlark/hashtable.go. Memory is explicit: an entry has an address, the chain of buckets
--     and the position in it, and a pointer to a pointer is the list's head or the field of an address.
--     Insertion holds `init`, `insert`, `grow` and `addAll`; Removal `lookup`, `delete` and `clear`; the
--     parent the rest. Spec is the list of items that a dict promises; the files beside it relate
--     the operations to it. `Hash` and `Equal` of values are parameters, with the laws that the
--     table relies on in `IsLawful`.
--   Class: World holds the objects by address, since classes are shared and compared by pointer. Merge
--     is `c3merge`, Make is `linearize` and `$make_class`, Attributes is attribute access, `super` and
--     `isinstance`, Super the stack of contexts behind the zero-argument `super`. `Call` is a parameter.
--   Slices: `slice`, `indices` and `asIndex` of starlark/eval.go on lists, with the `Slice` method of
--     starlark/value.go.
--
-- Integers of fixed width are natural numbers with their wrap-around written out. Errors are values, and
-- a run-time panic is a value of its own where the code could run into one.
--
-- Loops are recursion on the data, or on fuel, and each gets enough: `c3merge` gets the
-- total length of the sequences, of which each round takes at least one item; a row of the line table
-- gets its distance to the row before; `insert` gets two passes, since a table that has just grown is not
-- overloaded; `init` gets its size, since the number of buckets doubles from one; the loop of a
-- slice gets the length, of which each round takes at least one index; and the search of `Position` gets
-- the length too, since the interval shrinks.
--
-- `interpolate` gets the length of the format and one round more, since each round takes a '%'.
--
-- The machine runs on as many rounds as it is given; a thread's limit of steps is enough. A drained
-- `*args` gets one round more than its iterator has elements.
--
-- Not modelled: the scanner but for the tokens, the parser and the resolver, the code generator but for
-- the encodings and the effects of instructions, the arithmetic and the methods of the other
-- values, the standard modules under lib/, and input and output.
pub mod Common
pub mod Compile
pub mod Class
pub mod Hashtable
pub mod Syntax
pub mod Slices
pub mod Args
pub mod Format
pub mod Vm
