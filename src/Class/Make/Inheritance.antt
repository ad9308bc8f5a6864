-- ===== src/Class/Make/Inheritance.antt =====
-- Single inheritance and `isinstance`, starlark/class.go and starlark/classbuiltins.go.
use starlark_go.Common.{
  ℕ, ◌<◌, ◌≡◌, refl, sym, ap, subst, true, List, [], ◌∷◌, map, some, get_elem?, length, arith, ◌⊎◌,
  inl, inr, All, ◌↔◌,
}
use starlark_go.Common.Members.{In, NoRepeats, Subseq, none_left, keep, pass}
use starlark_go.Class.World.{Value, Class, Instance, World, mro_at}
use starlark_go.Class.Merge.Order.{InSome}
use starlark_go.Class.Merge.Complete.{c3merge-IsMerge, In-Subseq}
use starlark_go.Class.Attributes.{is_instance}
use starlark_go.Class.Attributes.Resolution.{is_instance-In}
use starlark_go.Class.Make.{ok, linearize, sequences}
use starlark_go.Class.Make.Linear.{In-All}
use starlark_go.Class.Make.Order.{IsValid, get_elem?-lt}

-- A subsequence that holds every item of a list without repeats is the list.
Subseq-eq : {s r : List ℕ} → Subseq s r → NoRepeats r → ((x : ℕ) → In x r → In x s) → s ≡ r
Subseq-eq (none_left {ys = []}) n h = refl
Subseq-eq (none_left {ys = y ∷ ys}) n h = absurd (h y (inl refl))
Subseq-eq (keep {x = x} {xs = xs} {ys = ys} s) n h =
    ap (λ (t : List ℕ). x ∷ t)
      (Subseq-eq s n.1 (λ z i. elim (h z (inr i)) as (λ _. In z xs) [
        | inl e ↦ absurd (n.0 (subst (λ (t : ℕ). In t ys) e i))
        | inr j ↦ j
      ]))
Subseq-eq (pass {y = y} s) n h = absurd (n.0 (In-Subseq y s (h y (inl refl))))

Subseq-self : (s : List ℕ) → Subseq s s
Subseq-self [] = none_left
Subseq-self (x ∷ s) = keep (Subseq-self s)

get_elem?-known {ℓ} :
    {A : Type ℓ} (xs : List A) (i : ℕ) → i < length xs → (a : A) × (get_elem? xs i ≡ some a)
get_elem?-known [] i h = absurd (omega arith)
get_elem?-known (x ∷ xs) ℕ.zero h = (x, refl)
get_elem?-known (x ∷ xs) (ℕ.suc i) h = get_elem?-known xs i (omega arith)

-- The order of a class of a valid world, with the class in front.
mro_at_self :
    (cs : List Class) (b : ℕ)
    → IsValid cs
    → b < length cs
    → (rest : List ℕ) × (mro_at cs b ≡ b ∷ rest) × NoRepeats (mro_at cs b)
mro_at_self cs b v h =
    let (c, e) = get_elem?-known cs b h in
    let o = v b c e in (o.rest, rw (e, mro_at) o.self_first, rw (e, mro_at) o.once)

-- With a single base, the order of a new class is the class and then the order of its base.
pub linearize-single :
    (cs : List Class) (c b : ℕ)
    → IsValid cs
    → b < length cs
    → linearize cs c (b ∷ []) ≡ ok (c ∷ mro_at cs b)
unfolding linearize sequences
linearize-single cs c b v h =
    let (rest, shape, once) = mro_at_self cs b v h in
    let held : In b (mro_at cs b) = rw shape (inl refl) in
    elim (c3merge-IsMerge (mro_at cs b ∷ (b ∷ []) ∷ [])) [
      | inl (r, made, m) ↦
          let same : mro_at cs b ≡ r = Subseq-eq m.ordered.0 m.once (λ x i.
            elim (m.sound x i) as (λ _. In x (mro_at cs b)) [
              | inl j ↦ j
              | inr (inl (inl e)) ↦ rw e held
              | inr (inl (inr bad)) ↦ absurd bad
              | inr (inr bad) ↦ absurd bad
            ]) in
          rw (made, linearize, same)
      | inr (_, none_fits) ↦
          absurd (none_fits (mro_at cs b) (Subseq-self _, (rw shape (keep none_left), tt)) once)
    ]

InSome-bases :
    (cs : List Class) (bases : List ℕ) (k : ℕ)
    → InSome k (map (mro_at cs) bases)
    → (b : ℕ) × In b bases × In k (mro_at cs b)
InSome-bases cs [] k h = absurd h
InSome-bases cs (b ∷ bases) k (inl h) = (b, inl refl, h)
InSome-bases cs (b ∷ bases) k (inr h) = let (b', i, j) = InSome-bases cs bases k h in (b', inr i, j)

All-In : (P : ℕ → Type 0) (xs : List ℕ) (k : ℕ) → All P xs → In k xs → P k
All-In P [] k h i = absurd i
All-In P (x ∷ xs) k h (inl e) = subst P (sym e) h.0
All-In P (x ∷ xs) k h (inr i) = All-In P xs k h.1 i

-- In a valid world, an instance is one of its own class and of each class that a base of its class
-- counts as an ancestor of itself, and of no other class.
pub is_instance-bases :
    (w : World) (i target : ℕ) {self : Instance} {c : Class}
    → IsValid w.classes
    → get_elem? w.instances i ≡ some self
    → get_elem? w.classes self.class_of ≡ some c
    → (is_instance w (Value.inst i) (Value.class target) ≡ some true)
      ↔ ((target ≡ self.class_of) ⊎ ((b : ℕ) × In b c.bases × In target (mro_at w.classes b)))
is_instance-bases w i target {self} {c} v found class_found =
    let o = v self.class_of c class_found in
    let (in_mro, of_mro) = is_instance-In w i target found in
    let order : mro_at w.classes self.class_of ≡ c.mro = rw (class_found, mro_at) in
    let own_class_lt = get_elem?-lt w.classes self.class_of class_found in
    (
      λ yes_instance.
          let held : In target (self.class_of ∷ o.rest) =
            rw (order, o.self_first) at (in_mro yes_instance) in
          elim held
            as (λ _.
              (target ≡ self.class_of)
              ⊎ ((b : ℕ) × In b c.bases × In target (mro_at w.classes b))) [
                | inl p ↦ inl p
                | inr q ↦ elim (o.nothing_else target q) [
                  | inl j ↦
                      let base_lt = In-All self.class_of target c.bases o.bases_older j in
                      let (rest, shape, _) = mro_at_self w.classes target v (omega arith) in
                      inr (target, j, rw shape (inl refl))
                  | inr j ↦ inr (InSome-bases w.classes c.bases target j)
                ]
              ],
      elim [
        | inl p ↦ of_mro (rw (order, o.self_first) (inl p))
        | inr (b, j, held) ↦ of_mro (
            rw order (
              In-Subseq target
                (All-In (λ b. Subseq (mro_at w.classes b) c.mro) c.bases b o.orders_kept j) held))
      ],
    )
