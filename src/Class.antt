-- ===== src/Class.antt =====
-- The class runtime of starlark/class.go and starlark/classbuiltins.go.
pub mod Merge
pub mod World
pub mod Attributes
pub mod Make
pub mod Super
mod Tests
