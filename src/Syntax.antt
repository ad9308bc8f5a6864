-- ===== src/Syntax.antt =====
-- The syntax tree of syntax/syntax.go, as far as the lowering of classes reads and builds it.
-- Positions are opaque. Expressions that the lowering only carries along are `other_expr`, statements
-- that it leaves alone `other_stmt`. Comments and the resolver's annotations are left out.
pub mod Desugar
pub mod Token
mod Tests
use Prim.Native.String.{String}
use starlark_go.Common.{ℕ}

abbrev pub Position : Type 0
Position = ℕ

-- `user` is an identifier of the program. `make_class` stands for `$make_class` and `builder n` for
-- `$class` with the number `n` behind it: the scanner makes no identifier with a `$`.
pub data Name : Type 0 where
  user : String → Name
  make_class : Name
  builder : ℕ → Name

mutual
  -- `literal` is a literal of token STRING, whose raw text is the quoted value.
  pub data Expr : Type 0 where
    ident : Position → Name → Expr
    literal : Position → String → Expr
    call : Expr → Position → Exprs → Position → Expr
    tuple : Position → Exprs → Position → Expr
    dict : Position → Exprs → Position → Expr
    dict_entry : Expr → Position → Expr → Expr
    other_expr : ℕ → Expr

  pub data Exprs : Type 0 where
    no_expr : Exprs
    expr : Expr → Exprs → Exprs

pub record Ident : Type 0 where
  pub name_pos : Position
  pub name : Name

-- The operators of an assignment: `=`, and the augmented ones.
pub data AssignOp : Type 0 where
  eq : AssignOp
  augmented : ℕ → AssignOp

mutual
  -- The fields stand in the order of the source's structs.
  pub data Stmt : Type 0 where
    class_stmt : Position → Ident → Exprs → Stmts → Exprs → Stmt
    def_stmt : Position → Ident → Position → Exprs → Position → Stmts → Exprs → Stmt
    if_stmt : Position → Expr → Stmts → Position → Stmts → Stmt
    for_stmt : Position → Expr → Expr → Stmts → Stmt
    while_stmt : Position → Expr → Stmts → Stmt
    assign_stmt : Position → AssignOp → Expr → Expr → Stmt
    return_stmt : Position → Expr → Stmt
    other_stmt : ℕ → Stmt

  pub data Stmts : Type 0 where
    no_stmt : Stmts
    stmt : Stmt → Stmts → Stmts
