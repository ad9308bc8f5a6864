-- ===== src/Compile.antt =====
-- The byte code: internal/compile/compile.go and the instruction fetch of starlark/interp.go.
pub mod Operand
pub mod Opcode
pub mod LineTable
mod Tests
