-- ===== src/Syntax/Desugar/Lowered.antt =====
-- The shape of the tree that the lowering of syntax/classes.go leaves.
use starlark_go.Common.{ℕ, suc, ◌≡◌, ap, refl}
use starlark_go.Syntax.{
  no_expr, expr, Stmt, class_stmt, def_stmt, if_stmt, for_stmt, while_stmt, assign_stmt,
  return_stmt, other_stmt, Stmts, no_stmt, stmt,
}
use starlark_go.Syntax.Desugar.{append, desugar_classes, snoc, lower, lower_all}

unfoldable mutual
  -- No class and no decorator, at any depth.
  pub IsLowered : Stmt → Type 0
  IsLowered (class_stmt pos name bases body decs) = ⊥
  IsLowered (def_stmt pos name lparen params rparen body decs) = (decs ≡ no_expr) × AllLowered body
  IsLowered (if_stmt pos cond then_body else_pos else_body) =
      AllLowered then_body × AllLowered else_body
  IsLowered (for_stmt pos vars x body) = AllLowered body
  IsLowered (while_stmt pos cond body) = AllLowered body
  IsLowered (assign_stmt pos op lhs rhs) = Unit {0}
  IsLowered (return_stmt pos result) = Unit {0}
  IsLowered (other_stmt x) = Unit {0}

  pub AllLowered : Stmts → Type 0
  AllLowered no_stmt = Unit {0}
  AllLowered (stmt s ss) = IsLowered s × AllLowered ss

append-AllLowered :
    (ss more : Stmts) → AllLowered ss → AllLowered more → AllLowered (append ss more)
unfolding append AllLowered
append-AllLowered no_stmt more p q = q
append-AllLowered (stmt s ss) more p q = (p.0, append-AllLowered ss more p.1 q)

mutual
  unfolding lower AllLowered snoc

  lower-AllLowered : (n : ℕ) (s : Stmt) → AllLowered (lower n s).0
  lower-AllLowered n (class_stmt pos name bases body decs) = (
    (
      refl,
      append-AllLowered (lower_all (suc n) body).0 _ (lower_all-AllLowered (suc n) body) (tt, tt),
    ),
    (tt, tt),
  )
  lower-AllLowered n (def_stmt pos name lparen params rparen body no_expr) =
      ((refl, lower_all-AllLowered n body), tt)
  lower-AllLowered n (def_stmt pos name lparen params rparen body (expr d ds)) =
      ((refl, lower_all-AllLowered n body), (tt, tt))
  lower-AllLowered n (if_stmt pos cond then_body else_pos else_body) = (
    (lower_all-AllLowered n then_body, lower_all-AllLowered (lower_all n then_body).1 else_body),
    tt,
  )
  lower-AllLowered n (for_stmt pos vars x body) = (lower_all-AllLowered n body, tt)
  lower-AllLowered n (while_stmt pos cond body) = (lower_all-AllLowered n body, tt)
  lower-AllLowered n (assign_stmt pos op lhs rhs) = (tt, tt)
  lower-AllLowered n (return_stmt pos result) = (tt, tt)
  lower-AllLowered n (other_stmt x) = (tt, tt)

  lower_all-AllLowered : (n : ℕ) (ss : Stmts) → AllLowered (lower_all n ss).0
  lower_all-AllLowered n no_stmt = tt
  lower_all-AllLowered n (stmt s ss) =
      append-AllLowered (lower n s).0 _ (lower-AllLowered n s)
        (lower_all-AllLowered (lower n s).1 ss)

-- After the lowering of a file no class and no decorator is left, at any depth.
pub desugar_classes-AllLowered : (file : Stmts) → AllLowered (desugar_classes file)
unfolding desugar_classes
desugar_classes-AllLowered file = lower_all-AllLowered 0 file

mutual
  unfolding lower AllLowered append

  -- A statement without classes and decorators is kept, and the count too.
  lower-kept : (n : ℕ) (s : Stmt) → IsLowered s → lower n s ≡ (stmt s no_stmt, n)
  lower-kept n (class_stmt pos name bases body decs) h = absurd h
  lower-kept n (def_stmt pos name lparen params rparen body decs) h =
      rw (h.0, lower_all-kept n body h.1) refl
  lower-kept n (if_stmt pos cond then_body else_pos else_body) h =
      rw (lower_all-kept n then_body h.0, lower_all-kept n else_body h.1) refl
  lower-kept n (for_stmt pos vars x body) h = rw (lower_all-kept n body h) refl
  lower-kept n (while_stmt pos cond body) h = rw (lower_all-kept n body h) refl
  lower-kept n (assign_stmt pos op lhs rhs) h = refl
  lower-kept n (return_stmt pos result) h = refl
  lower-kept n (other_stmt x) h = refl

  lower_all-kept : (n : ℕ) (ss : Stmts) → AllLowered ss → lower_all n ss ≡ (ss, n)
  lower_all-kept n no_stmt h = refl
  lower_all-kept n (stmt s ss) h = rw (lower-kept n s h.0, lower_all-kept n ss h.1) refl

-- A second lowering changes nothing.
pub desugar_classes-twice :
    (file : Stmts) → desugar_classes (desugar_classes file) ≡ desugar_classes file
unfolding desugar_classes
desugar_classes-twice file =
    ap (λ (p : Stmts × ℕ). p.0)
      (lower_all-kept 0 (desugar_classes file) (desugar_classes-AllLowered file))
