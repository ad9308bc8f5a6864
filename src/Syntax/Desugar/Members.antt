-- ===== src/Syntax/Desugar/Members.antt =====
-- The namespace that a class body returns in the lowering of syntax/classes.go.
use Prim.Native.String.{String}
use text.Mathlib.Text.{◌==◌ as str_eq}
use text.Mathlib.TextEquality.{eq_iff}
use starlark_go.Common.{
  ◌≡◌, refl, sym, ◌∙◌, ap, subst, Bool, true, false, ◌||◌, List, [], ◌∷◌, ◌++◌, Option, none, some,
  ◌↔◌, ◌≢◌, ◌⊎◌, inl, inr, Bool-cases, if◌then◌else◌,
}
use starlark_go.Common.Members.{
  In, NoRepeats, NoRepeats-snoc, In-append, In-append_left, In-append_right,
}
use starlark_go.Syntax.{
  Name, user, make_class, builder, Stmt, Stmts, no_stmt, stmt, def_stmt, class_stmt, assign_stmt,
  ident,
}
use starlark_go.Syntax.Desugar.{seen, add_member, add_bound, binds, collect}

seen-In : (name : String) (members : List String) → seen name members ≡ true → In name members
unfolding seen
seen-In name [] h = let bad : false ≡ true = h in cc
seen-In name (m ∷ members) h = elim (Bool-cases (str_eq m name)) [
  | inl e ↦ inl (sym ((eq_iff m name).0 e))
  | inr e ↦ inr (seen-In name members (or_right (str_eq m name) _ e h))
]
  where
    or_right : (a b : Bool) → a ≡ false → (a || b) ≡ true → b ≡ true
    or_right true b e h = let bad : true ≡ false = e in cc
    or_right false b e h = h

In-seen : (name : String) (members : List String) → In name members → seen name members ≡ true
unfolding seen
In-seen name [] i = absurd i
In-seen name (m ∷ members) (inl e) = rw ((eq_iff m name).1 (sym e)) refl
In-seen name (m ∷ members) (inr i) = elim (Bool-cases (str_eq m name)) [
  | inl e ↦ rw e refl
  | inr e ↦ rw e (In-seen name members i)
]

add_member-NoRepeats :
    (name : Name) (members : List String) → NoRepeats members → NoRepeats (add_member name members)
unfolding add_member
add_member-NoRepeats (user name) members n = elim (Bool-cases (str_eq name "")) [
  | inl e ↦ rw e n
  | inr e ↦ rw e (elim (Bool-cases (seen name members)) [
    | inl q ↦ rw q n
    | inr q ↦ rw q (NoRepeats-snoc members name n (λ i. let yes = In-seen name members i in cc))
  ])
]
add_member-NoRepeats make_class members n = n
add_member-NoRepeats (builder k) members n = n

add_bound-NoRepeats :
    (o : Option Name) (members : List String) → NoRepeats members → NoRepeats (add_bound o members)
unfolding add_bound
add_bound-NoRepeats none members n = n
add_bound-NoRepeats (some name) members n = add_member-NoRepeats name members n

collect-NoRepeats :
    (body : Stmts) (members : List String) → NoRepeats members → NoRepeats (collect body members)
unfolding collect
collect-NoRepeats no_stmt members n = n
collect-NoRepeats (stmt s body) members n =
    collect-NoRepeats body _ (add_bound-NoRepeats (binds s) members n)

-- A statement that introduces the name: a function or a class of that name, or an assignment to it.
abbrev pub Introduces : String → Stmt → Type 0
Introduces x (def_stmt _ id _ _ _ _ _) = id.name ≡ user x
Introduces x (class_stmt _ id _ _ _) = id.name ≡ user x
Introduces x (assign_stmt _ _ (ident _ name) _) = name ≡ user x
Introduces x _ = ⊥

-- A statement of the body introduces the name.
abbrev pub Binds : String → Stmts → Type 0
Binds x no_stmt = ⊥
Binds x (stmt s body) = Introduces x s ⊎ Binds x body

unsome : {A : Type 0} (a b : A) → some a ≡ some b → a ≡ b
unsome a b e = ap (λ o. elim o [ none ↦ a | some c ↦ c ]) e

binds-Introduces : (s : Stmt) (x : String) → (binds s ≡ some (user x)) ↔ Introduces x s
unfolding binds
binds-Introduces (def_stmt _ id _ _ _ _ _) x = (λ e. unsome _ _ e, λ e. ap some e)
binds-Introduces (class_stmt _ id _ _ _) x = (λ e. unsome _ _ e, λ e. ap some e)
binds-Introduces (assign_stmt _ _ (ident _ name) _) x = (λ e. unsome _ _ e, λ e. ap some e)
binds-Introduces _ x = (λ e. cc, λ bad. absurd bad)

-- What one name adds.
add_bound-In :
    (o : Option Name) (members : List String) (x : String)
    → In x (add_bound o members)
    → In x members ⊎ (o ≡ some (user x))
unfolding add_bound add_member
add_bound-In none members x i = inl i
add_bound-In (some make_class) members x i = inl i
add_bound-In (some (builder k)) members x i = inl i
add_bound-In (some (user name)) members x i = go (str_eq name "") (seen name members) i
  where
    go :
        (a b : Bool)
        → In x (if a then members else if b then members else members ++ name ∷ [])
        → In x members ⊎ (some (user name) ≡ some (user x))
    go true b i = inl i
    go false true i = inl i
    go false false i =
        elim (In-append x members (name ∷ []) i)
          as (λ _. In x members ⊎ (some (user name) ≡ some (user x))) [
            | inl j ↦ inl j
            | inr (inl e) ↦ inr (ap (λ (s : String). some (user s)) (sym e))
            | inr (inr bad) ↦ absurd bad
          ]

In-add_bound :
    (o : Option Name) (members : List String) (x : String)
    → x ≢ ""
    → In x members ⊎ (o ≡ some (user x))
    → In x (add_bound o members)
unfolding add_bound add_member
In-add_bound none members x ne (inl i) = i
In-add_bound none members x ne (inr e) = let bad : none ≡ some (user x) = e in cc
In-add_bound (some make_class) members x ne (inl i) = i
In-add_bound (some make_class) members x ne (inr e) =
    let bad : some make_class ≡ some (user x) = e in cc
In-add_bound (some (builder k)) members x ne (inl i) = i
In-add_bound (some (builder k)) members x ne (inr e) =
    let bad : some (builder k) ≡ some (user x) = e in cc
In-add_bound (some (user name)) members x ne h = elim (Bool-cases (str_eq name "")) [
  | inl e ↦ rw e (elim h [
    | inl i ↦ i
    | inr q ↦ absurd (ne (let same : name ≡ x = cc in sym same ∙ (eq_iff name "").0 e))
  ])
  | inr e ↦ rw e (elim (Bool-cases (seen name members)) [
    | inl q ↦ rw q (elim h [
      | inl i ↦ i
      | inr p ↦
          let same : name ≡ x = cc in
          subst (λ (s : String). In s members) same (seen-In name members q)
    ])
    | inr q ↦ rw q (elim h [
      | inl i ↦ In-append_left x members (name ∷ []) i
      | inr p ↦ let same : name ≡ x = cc in In-append_right x members (name ∷ []) (inl (sym same))
    ])
  ])
]

collect-In :
    (body : Stmts) (members : List String) (x : String)
    → x ≢ ""
    → In x (collect body members) ↔ (In x members ⊎ Binds x body)
unfolding collect
collect-In no_stmt members x ne = ((λ i. inl i), elim [ inl i ↦ i | inr bad ↦ absurd bad ])
collect-In (stmt s body) members x ne =
    let ih = collect-In body (add_bound (binds s) members) x ne in
    (
      (λ i. elim (ih.0 i) [
        | inl j ↦ elim (add_bound-In (binds s) members x j) [
          | inl k ↦ inl k
          | inr e ↦ inr (inl ((binds-Introduces s x).0 e))
        ]
        | inr b ↦ inr (inr b)
      ]),
      (λ h. ih.1 (elim h as (λ _. In x (add_bound (binds s) members) ⊎ Binds x body) [
        | inl i ↦ inl (In-add_bound (binds s) members x ne (inl i))
        | inr (inl e) ↦ inl (In-add_bound (binds s) members x ne (inr ((binds-Introduces s x).1 e)))
        | inr (inr b) ↦ inr b
      ])),
    )

-- The members of a class are the names of the functions and classes of its body and the plain names
-- that its assignments assign to, each once, for names that are not empty.
pub collect-Binds :
    (body : Stmts)
    → NoRepeats (collect body []) × ((x : String) → x ≢ "" → In x (collect body []) ↔ Binds x body)
collect-Binds body = (
  collect-NoRepeats body [] tt,
  λ x ne. (
    (λ i. elim ((collect-In body [] x ne).0 i) [ inl bad ↦ absurd bad | inr b ↦ b ]),
    (λ b. (collect-In body [] x ne).1 (inr b)),
  ),
)
