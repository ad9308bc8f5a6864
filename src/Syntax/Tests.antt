-- ===== src/Syntax/Tests.antt =====
-- A file with classes and decorators, and the theorems about the lowering at it.
use Prim.Native.String.{String}
use starlark_go.Common.{◌≡◌, refl, [], ◌∷◌, ◌≢◌, ◌↔◌}
use starlark_go.Common.Members.{In, NoRepeats}
use starlark_go.Syntax.{
  Position, user, ident, literal, other_expr, no_expr, expr, Ident, eq, Stmt, class_stmt, def_stmt,
  if_stmt, assign_stmt, other_stmt, Stmts, no_stmt, stmt,
}
use starlark_go.Syntax.Desugar.{desugar_classes, collect}
use starlark_go.Syntax.Desugar.Lowered.{
  AllLowered, desugar_classes-AllLowered, desugar_classes-twice,
}
use starlark_go.Syntax.Desugar.Numbering.{
  AllPlain, builders, classes, upto, desugar_classes-builders,
}
use starlark_go.Syntax.Desugar.Members.{Binds, collect-Binds}

abbrev called : Position → String → Ident
called pos s = record { name_pos = pos; name = user s }

-- @deco
-- def family(): ...
abbrev family : Stmt
family =
    def_stmt 10 (called 11 "family") 12 no_expr 13 (stmt (other_stmt 1) no_stmt)
      (expr (ident 9 (user "deco")) no_expr)

abbrev inner : Stmt
inner = class_stmt 20 (called 21 "Inner") no_expr (stmt (other_stmt 2) no_stmt) no_expr

abbrev dog_body : Stmts
dog_body = stmt family (
    stmt inner (
      stmt (assign_stmt 30 eq (ident 31 (user "kind")) (literal 32 "canine"))
        (stmt (assign_stmt 33 eq (ident 34 (user "kind")) (literal 35 "dog")) no_stmt)))

abbrev dog : Stmt
dog = class_stmt 5 (called 6 "Dog") (expr (ident 7 (user "Animal")) no_expr) dog_body no_expr

abbrev sample : Stmts
sample = stmt dog (stmt (if_stmt 40 (other_expr 1) (stmt inner no_stmt) 41 no_stmt) no_stmt)

members_test : collect dog_body [] ≡ "family" ∷ "Inner" ∷ "kind" ∷ []
unfolding collect
members_test = refl

sample-AllPlain : AllPlain sample
unfolding AllPlain
sample-AllPlain = (((refl, (tt, tt)), ((tt, tt), (tt, (tt, tt)))), ((((tt, tt), tt), tt), tt))

builders_test : builders (desugar_classes sample) ≡ 1 ∷ 2 ∷ 3 ∷ []
unfolding builders desugar_classes
builders_test = refl

desugar_classes-builders_example : builders (desugar_classes sample) ≡ upto 0 (classes sample)
desugar_classes-builders_example = desugar_classes-builders sample sample-AllPlain

desugar_classes-AllLowered_example : AllLowered (desugar_classes sample)
desugar_classes-AllLowered_example = desugar_classes-AllLowered sample

desugar_classes-twice_example : desugar_classes (desugar_classes sample) ≡ desugar_classes sample
desugar_classes-twice_example = desugar_classes-twice sample

collect-Binds_example :
    NoRepeats (collect dog_body [])
    × ((x : String) → x ≢ "" → In x (collect dog_body []) ↔ Binds x dog_body)
collect-Binds_example = collect-Binds dog_body
