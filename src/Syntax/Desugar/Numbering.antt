-- ===== src/Syntax/Desugar/Numbering.antt =====
-- The names of the builders that the lowering of syntax/classes.go makes.
use starlark_go.Common.{
  ℕ, zero, suc, ◌+◌, ◌≡◌, refl, sym, ◌∙◌, ap, List, [], ◌∷◌, ◌++◌, arith, append_assoc, append-nil,
}
use starlark_go.Syntax.{
  no_expr, expr, Name, user, make_class, builder, Stmt, class_stmt, def_stmt, if_stmt, for_stmt,
  while_stmt, assign_stmt, return_stmt, other_stmt, Stmts, no_stmt, stmt,
}
use starlark_go.Syntax.Desugar.{lower, lower_all, snoc, desugar_classes, append}

abbrev pub number_of : Name → List ℕ
number_of (builder k) = k ∷ []
number_of (user _) = []
number_of make_class = []

unfoldable mutual
  -- The numbers of the builders that the functions at any depth are named with, from the outside in.
  pub builders_of : Stmt → List ℕ
  builders_of (class_stmt pos name bases body decs) = builders body
  builders_of (def_stmt pos name lparen params rparen body decs) =
      number_of name.name ++ builders body
  builders_of (if_stmt pos cond then_body else_pos else_body) =
      builders then_body ++ builders else_body
  builders_of (for_stmt pos vars x body) = builders body
  builders_of (while_stmt pos cond body) = builders body
  builders_of (assign_stmt pos op lhs rhs) = []
  builders_of (return_stmt pos result) = []
  builders_of (other_stmt x) = []

  pub builders : Stmts → List ℕ
  builders no_stmt = []
  builders (stmt s ss) = builders_of s ++ builders ss

unfoldable mutual
  -- How many classes there are at any depth.
  pub classes_of : Stmt → ℕ
  classes_of (class_stmt pos name bases body decs) = suc (classes body)
  classes_of (def_stmt pos name lparen params rparen body decs) = classes body
  classes_of (if_stmt pos cond then_body else_pos else_body) = classes then_body + classes else_body
  classes_of (for_stmt pos vars x body) = classes body
  classes_of (while_stmt pos cond body) = classes body
  classes_of (assign_stmt pos op lhs rhs) = 0
  classes_of (return_stmt pos result) = 0
  classes_of (other_stmt x) = 0

  pub classes : Stmts → ℕ
  classes no_stmt = 0
  classes (stmt s ss) = classes_of s + classes ss

-- The `k` numbers behind `n`.
abbrev pub upto : ℕ → ℕ → List ℕ
upto n zero = []
upto n (suc k) = suc n ∷ upto (suc n) k

upto-append : (n a b : ℕ) → upto n (a + b) ≡ upto n a ++ upto (n + a) b
upto-append n zero b =
    let left : 0 + b ≡ b = omega arith in
    let right : n ≡ n + 0 = omega arith in ap (upto n) left ∙ ap (λ (m : ℕ). upto m b) right
upto-append n (suc a) b =
    let left : suc a + b ≡ suc (a + b) = omega arith in
    let right : suc n + a ≡ n + suc a = omega arith in
    ap (upto n) left
    ∙ ap (λ (t : List ℕ). suc n ∷ t) (upto-append (suc n) a b)
    ∙ ap (λ (m : ℕ). upto n (suc a) ++ upto m b) right

-- No function of the program is named like a builder.
unfoldable mutual
  pub IsPlain : Stmt → Type 0
  IsPlain (class_stmt pos name bases body decs) = AllPlain body
  IsPlain (def_stmt pos name lparen params rparen body decs) =
      (number_of name.name ≡ []) × AllPlain body
  IsPlain (if_stmt pos cond then_body else_pos else_body) = AllPlain then_body × AllPlain else_body
  IsPlain (for_stmt pos vars x body) = AllPlain body
  IsPlain (while_stmt pos cond body) = AllPlain body
  IsPlain (assign_stmt pos op lhs rhs) = Unit {0}
  IsPlain (return_stmt pos result) = Unit {0}
  IsPlain (other_stmt x) = Unit {0}

  pub AllPlain : Stmts → Type 0
  AllPlain no_stmt = Unit {0}
  AllPlain (stmt s ss) = IsPlain s × AllPlain ss

builders-append : (ss more : Stmts) → builders (append ss more) ≡ builders ss ++ builders more
unfolding append builders
builders-append no_stmt more = refl
builders-append (stmt s ss) more =
    ap (λ (t : List ℕ). builders_of s ++ t) (builders-append ss more)
    ∙ sym (append_assoc (builders_of s) (builders ss) (builders more))

-- The lowered statements hold the builders of that many numbers behind `n`, and the count goes on.
abbrev pub Numbers : ℕ → ℕ → Stmts × ℕ → Type 0
Numbers n k out = (builders out.0 ≡ upto n k) × (out.1 ≡ n + k)

Numbers-append :
    (n a b : ℕ) (out more : Stmts × ℕ)
    → Numbers n a out
    → Numbers out.1 b more
    → Numbers n (a + b) (append out.0 more.0, more.1)
Numbers-append n a b out more p q = (
  builders-append out.0 more.0
      ∙ ap (λ (t : List ℕ). t ++ builders more.0) p.0
      ∙ ap (λ (t : List ℕ). upto n a ++ t) (q.0 ∙ ap (λ (m : ℕ). upto m b) p.1)
      ∙ sym (upto-append n a b),
  omega (arith, p.1, q.1),
)

-- A compound statement takes over the count of its body.
mutual
  unfolding lower builders classes IsPlain snoc

  lower-Numbers : (n : ℕ) (s : Stmt) → IsPlain s → Numbers n (classes_of s) (lower n s)
  lower-Numbers n (class_stmt pos name bases body decs) h =
      let p = lower_all-Numbers (suc n) body h in
      (
        ap (λ (t : List ℕ). suc n ∷ t)
            (append-nil _ ∙ builders-append (lower_all (suc n) body).0 _ ∙ append-nil _ ∙ p.0),
        omega (arith, p.1),
      )
  lower-Numbers n (def_stmt pos name lparen params rparen body no_expr) h =
      let p = lower_all-Numbers n body h.1 in
      (append-nil _ ∙ ap (λ (t : List ℕ). t ++ builders (lower_all n body).0) h.0 ∙ p.0, p.1)
  lower-Numbers n (def_stmt pos name lparen params rparen body (expr d ds)) h =
      let p = lower_all-Numbers n body h.1 in
      (append-nil _ ∙ ap (λ (t : List ℕ). t ++ builders (lower_all n body).0) h.0 ∙ p.0, p.1)
  lower-Numbers n (if_stmt pos cond then_body else_pos else_body) h =
      let first = lower_all n then_body in
      let p =
        Numbers-append n (classes then_body) (classes else_body) first (lower_all first.1 else_body)
          (lower_all-Numbers n then_body h.0) (lower_all-Numbers first.1 else_body h.1) in
      (append-nil _ ∙ sym (builders-append first.0 (lower_all first.1 else_body).0) ∙ p.0, p.1)
  lower-Numbers n (for_stmt pos vars x body) h =
      let p = lower_all-Numbers n body h in (append-nil _ ∙ p.0, p.1)
  lower-Numbers n (while_stmt pos cond body) h =
      let p = lower_all-Numbers n body h in (append-nil _ ∙ p.0, p.1)
  lower-Numbers n (assign_stmt pos op lhs rhs) h = (refl, omega arith)
  lower-Numbers n (return_stmt pos result) h = (refl, omega arith)
  lower-Numbers n (other_stmt x) h = (refl, omega arith)

  lower_all-Numbers : (n : ℕ) (ss : Stmts) → AllPlain ss → Numbers n (classes ss) (lower_all n ss)
  lower_all-Numbers n no_stmt h = (refl, omega arith)
  lower_all-Numbers n (stmt s ss) h =
      Numbers-append n (classes_of s) (classes ss) (lower n s) (lower_all (lower n s).1 ss)
        (lower-Numbers n s h.0) (lower_all-Numbers (lower n s).1 ss h.1)

-- The lowering of a file makes one builder for each class, and numbers them from 1 on, from the outside in
-- and down the file, if the program itself names no function like a builder.
pub desugar_classes-builders :
    (file : Stmts) → AllPlain file → builders (desugar_classes file) ≡ upto 0 (classes file)
unfolding desugar_classes
desugar_classes-builders file h = (lower_all-Numbers 0 file h).0
