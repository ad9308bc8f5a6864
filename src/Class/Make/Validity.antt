-- ===== src/Class/Make/Validity.antt =====
-- `makeClass` of starlark/classbuiltins.go, against the invariant of the classes.
use Prim.Native.String.{String}
use starlark_go.Common.{
  ℕ, ◌<◌, ◌≡◌, sym, ◌∙◌, ap, subst, false, List, [], ◌∷◌, ◌++◌, length, arith, inl, inr, All,
}
use starlark_go.Class.World.{Value, Values, Class, World, StringDict}
use starlark_go.Class.Make.{
  ok, linearize, collect_bases, collect_members, make_class, build_class, as_name, as_tuple,
  as_dict,
}
use starlark_go.Class.Make.Order.{
  HasOrder, IsValid, Known, ok-injective, from_bind, collect_bases-older, get_elem?-append,
  get_elem?-last, HasOrder-append,
}
use starlark_go.Class.Make.Linear.{merge-HasOrder, linearize-IsMerge}

abbrev pub KnownValue : ℕ → Value → Type 0
KnownValue n (Value.tuple vs) = Known n vs
KnownValue n _ = Unit

as_tuple-Known :
    (n : ℕ) (v : Value) {vs : Values} → KnownValue n v → as_tuple v ≡ ok vs → Known n vs
unfolding as_tuple
as_tuple-Known n (Value.tuple us) {vs} k e = let p : us ≡ vs = cc in rw (← p) k
as_tuple-Known n _ k e = cc

snoc-IsValid :
    (cs : List Class) (new : Class)
    → IsValid cs
    → HasOrder cs (length cs) new
    → IsValid (cs ++ new ∷ [])
snoc-IsValid cs new v o i c e = elim (get_elem?-last cs new i e) [
  | inl h ↦
      HasOrder-append cs new i c (omega arith)
        (v i c (sym (get_elem?-append cs (new ∷ []) i h) ∙ e))
  | inr (h, p) ↦ rw (h, p) (HasOrder-append cs new (length cs) new (omega arith) o)
]

-- What a successful call has done: one class more, at the address that it returns.
abbrev pub Appends : World → World → ℕ → Type 0
Appends w w' c =
    (new : Class) × (w'.classes ≡ w.classes ++ new ∷ [])
    × (c ≡ length w.classes)
    × IsValid w'.classes

build_class-IsValid :
    (w : World) (name : String) (bases : List ℕ) (members : StringDict) {w' : World} {c : ℕ}
    → IsValid w.classes
    → All (λ b. b < length w.classes) bases
    → build_class w name bases members ≡ ok (w', c)
    → Appends w w' c
unfolding build_class
build_class-IsValid w name bases members {w'} {c} v h e =
    let (mro, mro_eq, e') = from_bind _ (linearize w.classes (length w.classes) bases) e in
    let (r, shape, m) = linearize-IsMerge w.classes (length w.classes) bases mro_eq in
    let new : Class = record {
      name = name;
      bases = bases;
      mro = mro;
      members = members;
      frozen = false;
    } in
    let world_eq : (record w { classes = w.classes ++ new ∷ [] }, length w.classes) ≡ (w', c) =
      ok-injective e' in
    (
      new,
      ap (λ (p : World × ℕ). p.0.classes) (sym world_eq),
      ap (λ (p : World × ℕ). p.1) (sym world_eq),
      subst (λ (p : World × ℕ). IsValid p.0.classes) world_eq
          (snoc-IsValid w.classes new v (merge-HasOrder w.classes v new r shape h m)),
    )

make_class-build :
    (w : World) (name_arg bases_arg ns_arg : Value) {r : World × ℕ}
    → make_class w (name_arg ∷ bases_arg ∷ ns_arg ∷ []) [] ≡ ok r
    → (vs : Values) × (bases : List ℕ) × (name : String) × (members : StringDict) × (as_tuple
          bases_arg
        ≡ ok vs)
      × (collect_bases [] vs ≡ ok bases)
      × (build_class w name bases members ≡ ok r)
unfolding make_class
make_class-build w name_arg bases_arg ns_arg e =
    let (name, _, e₁) = from_bind _ (as_name name_arg) e in
    let (vs, tuple_eq, e₂) = from_bind _ (as_tuple bases_arg) e₁ in
    let (ns, _, e₃) = from_bind _ (as_dict ns_arg) e₂ in
    let (bases, bases_eq, e₄) = from_bind _ (collect_bases [] vs) e₃ in
    let (members, _, e₅) = from_bind _ (collect_members [] ns) e₄ in
    (vs, bases, name, members, tuple_eq, bases_eq, e₅)

-- In a world whose classes all have their orders, `make_class` on known bases appends one class, whose
-- address it returns, and all classes of the new world have their orders.
pub make_class-IsValid :
    (w : World) (name_arg bases_arg ns_arg : Value) {w' : World} {c : ℕ}
    → IsValid w.classes
    → KnownValue (length w.classes) bases_arg
    → make_class w (name_arg ∷ bases_arg ∷ ns_arg ∷ []) [] ≡ ok (w', c)
    → Appends w w' c
make_class-IsValid w name_arg bases_arg ns_arg v k e =
    let (vs, bases, name, members, tuple_eq, bases_eq, built) =
      make_class-build w name_arg bases_arg ns_arg e in
    build_class-IsValid w name bases members v
      (collect_bases-older (length w.classes) [] vs tt
        (as_tuple-Known (length w.classes) bases_arg k tuple_eq) bases_eq)
      built
