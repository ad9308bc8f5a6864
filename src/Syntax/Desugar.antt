-- ===== src/Syntax/Desugar.antt =====
-- The lowering of classes and decorators, syntax/classes.go. The counter of the `desugarer` is passed
-- on from call to call.
pub mod Lowered
pub mod Numbering
pub mod Members
use Prim.Native.String.{String}
use text.Mathlib.Text.{◌==◌ as str_eq}
use starlark_go.Common.{
  suc, ℕ, Bool, false, ◌||◌, List, [], ◌∷◌, ◌++◌, Option, none, some, if◌then◌else◌,
}
use starlark_go.Syntax.{
  Position, Name, user, make_class, builder, Expr, ident, literal, call, tuple, dict, dict_entry,
  Exprs, no_expr, expr, Ident, eq, Stmt, class_stmt, def_stmt, assign_stmt, Stmts, no_stmt, stmt,
  if_stmt, for_stmt, while_stmt, return_stmt, other_stmt,
}

unfoldable pub append : Stmts → Stmts → Stmts
append no_stmt more = more
append (stmt s ss) more = stmt s (append ss more)

-- `append(out, s)`
unfoldable pub snoc : Stmts → Stmt → Stmts
unfolding append
snoc ss s = append ss (stmt s no_stmt)

unfoldable pub cls_ident : Ident → Expr
cls_ident id = ident id.name_pos id.name

-- `for i := len(decs) - 1; i >= 0; i--`: the last decorator is applied first.
unfoldable pub decorate : Position → Exprs → Expr → Expr
decorate pos no_expr rhs = rhs
decorate pos (expr d ds) rhs = call d pos (expr (decorate pos ds rhs) no_expr) pos

unfoldable pub apply_decorators : Ident → Exprs → Stmt
unfolding decorate cls_ident
apply_decorators name decs =
    assign_stmt name.name_pos eq (cls_ident name) (decorate name.name_pos decs (cls_ident name))

-- `seen` and `members` together: a name that is there is not added again.
unfoldable pub seen : String → List String → Bool
seen name [] = false
seen name (m ∷ members) = str_eq m name || seen name members

unfoldable pub add_member : Name → List String → List String
unfolding seen
add_member (user name) members =
    if str_eq name "" then members else if seen name members then members else members ++ name ∷ []
add_member _ members = members

-- The name that a statement of a class body binds.
unfoldable pub binds : Stmt → Option Name
binds (def_stmt _ name _ _ _ _ _) = some name.name
binds (class_stmt _ name _ _ _) = some name.name
binds (assign_stmt _ _ (ident _ name) _) = some name
binds _ = none

unfoldable pub add_bound : Option Name → List String → List String
unfolding add_member
add_bound none members = members
add_bound (some name) members = add_member name members

unfoldable pub collect : Stmts → List String → List String
unfolding binds add_bound
collect no_stmt members = members
collect (stmt s body) members = collect body (add_bound (binds s) members)

unfoldable pub entries : List String → Position → Exprs
entries [] pos = no_expr
entries (m ∷ members) pos =
    expr (dict_entry (literal pos m) pos (ident pos (user m))) (entries members pos)

unfoldable pub namespace_dict : List String → Position → Expr
unfolding entries
namespace_dict members pos = dict pos (entries members pos) pos

-- `Name = [decorators...]($make_class("Name", (bases,), $classN()))`
unfoldable pub class_binding : Position → Ident → Exprs → Exprs → ℕ → Stmt
unfolding decorate cls_ident
class_binding pos name bases decs n = assign_stmt name.name_pos eq (cls_ident name) (
    decorate pos decs (
      call (ident pos make_class) pos
        (expr (literal pos (name_text name.name)) (
          expr (tuple pos bases pos) (expr (call (ident pos (builder n)) pos no_expr pos) no_expr)))
        pos))
  where
    name_text : Name → String
    name_text (user s) = s
    name_text _ = ""

-- A statement is lowered to the statements that replace it. `n` is the number of builders so far.
unfoldable mutual
  unfolding class_binding apply_decorators namespace_dict collect snoc append

  pub lower : ℕ → Stmt → Stmts × ℕ
  lower n (class_stmt pos name bases body decs) =
      let members = collect body [] in
      let (lowered, n') = lower_all (suc n) body in
      let id : Ident = record { name_pos = pos; name = builder (suc n) } in
      let whole = snoc lowered (return_stmt pos (namespace_dict members pos)) in
      (
        stmt (def_stmt pos id pos no_expr pos whole no_expr)
            (stmt (class_binding pos name bases decs (suc n)) no_stmt),
        n',
      )
  lower n (def_stmt pos name lparen params rparen body decs) =
      let (lowered, n') = lower_all n body in
      let s = def_stmt pos name lparen params rparen lowered no_expr in
      (
        stmt s (elim decs [
          | no_expr ↦ no_stmt
          | expr d ds ↦ stmt (apply_decorators name (expr d ds)) no_stmt
        ]),
        n',
      )
  lower n (if_stmt pos cond then_body else_pos else_body) =
      let (then_body', n') = lower_all n then_body in
      let (else_body', n'') = lower_all n' else_body in
      (stmt (if_stmt pos cond then_body' else_pos else_body') no_stmt, n'')
  lower n (for_stmt pos vars x body) =
      let (lowered, n') = lower_all n body in (stmt (for_stmt pos vars x lowered) no_stmt, n')
  lower n (while_stmt pos cond body) =
      let (lowered, n') = lower_all n body in (stmt (while_stmt pos cond lowered) no_stmt, n')
  lower n (assign_stmt pos op lhs rhs) = (stmt (assign_stmt pos op lhs rhs) no_stmt, n)
  lower n (return_stmt pos result) = (stmt (return_stmt pos result) no_stmt, n)
  lower n (other_stmt x) = (stmt (other_stmt x) no_stmt, n)

  pub lower_all : ℕ → Stmts → Stmts × ℕ
  lower_all n no_stmt = (no_stmt, n)
  lower_all n (stmt s ss) =
      let (out, n') = lower n s in let (more, n'') = lower_all n' ss in (append out more, n'')

unfoldable pub desugar_classes : Stmts → Stmts
unfolding lower_all
desugar_classes file = (lower_all 0 file).0
