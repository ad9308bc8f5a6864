-- ===== src/Class/Attributes/Resolution.antt =====
-- The members that attribute access in starlark/class.go answers with, against the resolution order.
use Prim.Native.String.{String}
use text.Mathlib.Text.{◌==◌ as str_eq}
use starlark_go.Common.{
  ℕ, ◌≡◌, refl, sym, ◌∙◌, ap, Bool, true, false, List, [], ◌∷◌, ◌++◌, Option, none, some, get_elem?,
  if◌then◌else◌, ◌==◌, ==_iff, inl, inr, ◌≢◌, ◌↔◌, All, arith, Bool-cases, Option-cases,
}
use starlark_go.Common.Members.{In}
use starlark_go.Class.World.{Value, Class, Instance, World, find, mro_at, members_at}
use starlark_go.Class.Merge.{contains}
use starlark_go.Class.Merge.Order.{contains-In, In-contains}
use starlark_go.Class.Attributes
use starlark_go.Class.Attributes.{
  Found, value, absent, error, panic, lookup_in, lookup, bind_member, bind_found, or_found,
  instance_attr, set_field, SuperProxy, Super, proxy, refused, new_super, after_start, super_attr,
  matches, matches_info, is_instance,
}

-- The list falls into the part before an item, the item, and the part behind it.
abbrev pub SplitsAt : List ℕ → List ℕ → ℕ → List ℕ → Type 0
SplitsAt xs before k after = (xs ≡ before ++ k ∷ after) × (¬ In k before)

-- A class that does not define the name itself.
abbrev pub Lacks : List Class → String → ℕ → Type 0
Lacks cs name k = find name (members_at cs k) ≡ none

-- What `lookup` answers: the member of the first class of the order that defines it, or that no class
-- of the order does.
pub data Resolves (cs : List Class) (mro : List ℕ) (name : String)
    : Option (Value × ℕ) → Type 0 where
  defined :
      {r : Option (Value × ℕ)} (before after : List ℕ) (k : ℕ) (v : Value)
      → r ≡ some (v, k)
      → mro ≡ before ++ k ∷ after
      → All (Lacks cs name) before
      → find name (members_at cs k) ≡ some v
      → Resolves cs mro name r
  undefined : {r : Option (Value × ℕ)} → r ≡ none → All (Lacks cs name) mro → Resolves cs mro name r

lookup_in-Resolves :
    (cs : List Class) (mro : List ℕ) (name : String) → Resolves cs mro name (lookup_in cs mro name)
unfolding lookup_in
lookup_in-Resolves cs [] name = undefined refl tt
lookup_in-Resolves cs (k ∷ mro) name = elim (Option-cases (find name (members_at cs k))) [
  | inr (v, e) ↦ defined [] mro k v (rw (e, lookup_in)) refl tt e
  | inl e ↦
      rw (e, lookup_in)
        (elim (lookup_in-Resolves cs mro name) [
          | defined before after j v p q lacks has ↦
              defined (k ∷ before) after j v p (ap (λ (t : List ℕ). k ∷ t) q) (e, lacks) has
          | undefined p lacks ↦ undefined p (e, lacks)
        ])
]

-- `lookup` finds the member of the first class in the resolution order that defines the name, and
-- that class; it finds nothing exactly when no class of the order defines it.
pub lookup-Resolves :
    (cs : List Class) (c : ℕ) (name : String) → Resolves cs (mro_at cs c) name (lookup cs c name)
unfolding lookup
lookup-Resolves cs c name = lookup_in-Resolves cs (mro_at cs c) name

after_start-In :
    (start : ℕ) (mro : List ℕ)
    → In start mro
    → (before : List ℕ) × (after : List ℕ) × SplitsAt mro before start after
      × (after_start start mro ≡ some after)
unfolding after_start
after_start-In start [] i = absurd i
after_start-In start (k ∷ mro) i = elim (Bool-cases (k == start)) [
  | inl e ↦ ([], mro, (ap (λ (t : ℕ). t ∷ mro) ((==_iff k start).0 e), λ h. h), rw e)
  | inr e ↦
      let other : ¬ (start ≡ k) = λ p. ground arith in
      let there : In start mro = elim i as (λ _. In start mro) [
        | inl p ↦ absurd (other p)
        | inr h ↦ h
      ] in
      let (before, after, (split, absent_before), found) = after_start-In start mro there in
      (
        k ∷ before,
        after,
        (ap (λ (t : List ℕ). k ∷ t) split, elim [ inl p ↦ other p | inr h ↦ absent_before h ]),
        rw e found,
      )
]

bind_member-ne-panic :
    (cs : List Class) (raw : Value) (i : Option ℕ) (c d : ℕ) → bind_member cs raw i c d ≢ panic
unfolding bind_member
bind_member-ne-panic cs (Value.str s) i c d e = cc
bind_member-ne-panic cs (Value.class_method fn) i c d e = ground arith
bind_member-ne-panic cs (Value.class k) none c d e = cc
bind_member-ne-panic cs (Value.class k) (some i) c d e = cc
bind_member-ne-panic cs (Value.bound_method r f n k) none c d e = cc
bind_member-ne-panic cs (Value.bound_method r f n k) (some i) c d e = cc
bind_member-ne-panic cs (Value.callable k) none c d e = cc
bind_member-ne-panic cs (Value.callable k) (some i) c d e = cc
bind_member-ne-panic cs _ i c d e = cc

bind_found-ne-panic :
    (cs : List Class) (r : Option (Value × ℕ)) (i : Option ℕ) (c : ℕ) → bind_found cs r i c ≢ panic
bind_found-ne-panic cs none i c e = cc
bind_found-ne-panic cs (some (raw, d)) i c e = bind_member-ne-panic cs raw i c d e

-- A proxy that `newSuper` grants is of the start class and of an instance, whose class has the start
-- class in its order.
new_super-In :
    (w : World) (cls : ℕ) (obj : Value) {p : SuperProxy}
    → new_super w cls obj ≡ proxy p
    → (i : ℕ) × (self : Instance) × (obj ≡ Value.inst i)
      × (get_elem? w.instances i ≡ some self)
      × (p ≡ record { start = cls; self = i; obj_class = self.class_of })
      × In cls (mro_at w.classes self.class_of)
unfolding new_super
new_super-In w cls (Value.inst i) {p} e = elim (Option-cases (get_elem? w.instances i)) [
  | inl n ↦ let e' : refused Attributes.not_instance ≡ proxy p = rw (n, new_super) at e in cc
  | inr (self, n) ↦ elim (Bool-cases (contains (mro_at w.classes self.class_of) cls)) [
    | inr f ↦ let e' : refused Attributes.not_in_mro ≡ proxy p = rw (n, f, new_super) at e in cc
    | inl t ↦
        let granted : SuperProxy = record { start = cls; self = i; obj_class = self.class_of } in
        let e' : proxy granted ≡ proxy p = rw (n, t, new_super) at e in
        let same : p ≡ granted = cc in (i, self, refl, n, same, In-contains _ cls t)
  ]
]
new_super-In w cls _ e = cc

super_attr-after :
    (cs : List Class) (p : SuperProxy) (name : String) {after : List ℕ}
    → after_start p.start (mro_at cs p.obj_class) ≡ some after
    → super_attr cs p name ≡ bind_found cs (lookup_in cs after name) (some p.self) p.obj_class
unfolding super_attr
super_attr-after cs p name e = rw (e, super_attr)

-- An attribute of a proxy that `newSuper` granted for the class `cls` and an object: the object is an
-- instance, and the attribute is looked up in the part of the order of the instance's own class that
-- lies behind `cls`, and bound to the instance; the slice never panics.
pub super_attr-new_super :
    (w : World) (cls : ℕ) (obj : Value) (name : String) {p : SuperProxy}
    → new_super w cls obj ≡ proxy p
    → (i : ℕ) × (self : Instance) × (obj ≡ Value.inst i)
      × (get_elem? w.instances i ≡ some self)
      × (before : List ℕ) × (after : List ℕ) × SplitsAt
          (mro_at w.classes self.class_of)
          before
          cls
          after
      × (super_attr w.classes p name
          ≡ bind_found w.classes (lookup_in w.classes after name) (some i) self.class_of)
      × (super_attr w.classes p name ≢ panic)
super_attr-new_super w cls obj name {p} e =
    let (i, self, is_inst, there, same, held) = new_super-In w cls obj e in
    let granted : SuperProxy = record { start = cls; self = i; obj_class = self.class_of } in
    let (before, after, split, found) = after_start-In cls (mro_at w.classes self.class_of) held in
    let answer =
      ap (λ (q : SuperProxy). super_attr w.classes q name) same
      ∙ super_attr-after w.classes granted name found in
    (
      i,
      self,
      is_inst,
      there,
      before,
      after,
      split,
      answer,
      λ bad. bind_found-ne-panic _ _ _ _ (sym answer ∙ bad),
    )

or_found-if :
    (b : Bool) (v : Value) (o : Option Value) (f : Found)
    → or_found (if b then some v else o) f ≡ (if b then value v else or_found o f)
or_found-if true v o f = refl
or_found-if false v o f = refl

-- `SetField` on a frozen instance refuses. On an instance that is not frozen it succeeds, and then the
-- instance answers the new value for the field and its former answer for every other name.
pub instance_attr-set_field :
    (w : World) (i : ℕ) (self : Instance) (name other : String) (v : Value)
    → (self.frozen ≡ true → set_field self name v ≡ none)
      × (self.frozen ≡ false
          → (self' : Instance) × (set_field self name v ≡ some self')
            × (instance_attr w i self' other
                ≡ (if str_eq name other then value v else instance_attr w i self other)))
unfolding set_field instance_attr
instance_attr-set_field w i self name other v = (
  λ f. rw f refl,
  λ f. (
    record self { fields = (name, v) ∷ self.fields },
    rw f refl,
    or_found-if (str_eq name other) v (find other self.fields) _,
  ),
)

-- `isinstance` of an instance and a class asks whether the class is in the order of the instance's
-- class.
pub is_instance-In :
    (w : World) (i target : ℕ) {self : Instance}
    → get_elem? w.instances i ≡ some self
    → (is_instance w (Value.inst i) (Value.class target) ≡ some true)
      ↔ In target (mro_at w.classes self.class_of)
unfolding is_instance
is_instance-In w i target {self} e =
    let mro = mro_at w.classes self.class_of in
    let answer : is_instance w (Value.inst i) (Value.class target) ≡ some (contains mro target) =
      rw (e, is_instance) in
    (
      λ h.
          let e' : some (contains mro target) ≡ some true = sym answer ∙ h in
          In-contains mro target cc,
      λ h. answer ∙ ap some (contains-In mro target h),
    )
