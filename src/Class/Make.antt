-- ===== src/Class/Make.antt =====
-- `linearize` of starlark/class.go and `makeClass` of starlark/classbuiltins.go.
pub mod Order
pub mod Linear
pub mod Validity
pub mod Inheritance
use Prim.Native.String.{String}
use starlark_go.Common.{
  ℕ, Bool, true, false, ◌||◌, not, List, [], ◌∷◌, ◌++◌, map, Option, none, some, get_elem?,
  if◌then◌else◌, ◌==◌, length, ltb,
}
use starlark_go.Class.World.{Value, Values, Items, Class, World, StringDict, find, mro_at}
use starlark_go.Class.Merge.{Merge, merged, inconsistent, stuck, contains, c3merge}

pub data Fault : Type 0 where
  unexpected_kwargs bad_arity bad_name bad_bases bad_namespace : Fault
  base_not_class duplicate_base member_not_string no_order : Fault

pub data Result (A : Type 0) : Type 0 where
  ok : A → Result A
  err : Fault → Result A

infixl 5 ◌>>=◌
abbrev pub ◌>>=◌ : {A B : Type 0} → Result A → (A → Result B) → Result B
err fault >>= next = err fault
ok a >>= next = next a

-- The sequences that `linearize` merges: the orders of the bases, and the list of the bases.
unfoldable pub sequences : List Class → List ℕ → List (List ℕ)
sequences cs [] = []
sequences cs (b ∷ bases) = map (mro_at cs) (b ∷ bases) ++ (b ∷ bases) ∷ []

-- `linearize`, for a class at the address `c`. c3merge-IsMerge excludes `stuck`.
unfoldable pub linearize : List Class → ℕ → List ℕ → Result (List ℕ)
unfolding sequences c3merge
linearize cs c bases = elim (c3merge (sequences cs bases)) [
  | merged r ↦ ok (c ∷ r)
  | inconsistent ↦ err no_order
  | stuck ↦ err no_order
]

-- The loop over the tuple of bases; `bases` is what it has collected.
unfoldable pub collect_bases : List ℕ → Values → Result (List ℕ)
unfolding contains
collect_bases bases Values.nil = ok bases
collect_bases bases (Values.cons (Value.class b) vs) =
    let rest = collect_bases (bases ++ b ∷ []) vs in
    if contains bases b then err duplicate_base else rest
collect_bases bases (Values.cons _ vs) = err base_not_class

-- The loop over the items of the namespace.
unfoldable pub collect_members : StringDict → Items → Result StringDict
collect_members members Items.end = ok members
collect_members members (Items.item (Value.str key) v items) =
    collect_members ((key, v) ∷ members) items
collect_members members (Items.item _ v items) = err member_not_string

as_name : Value → Result String
as_name (Value.str s) = ok s
as_name _ = err bad_name

as_tuple : Value → Result Values
as_tuple (Value.tuple vs) = ok vs
as_tuple _ = err bad_bases

as_dict : Value → Result Items
as_dict (Value.dict items) = ok items
as_dict _ = err bad_namespace

-- The end of `makeClass`: a new object at a new address, with its order.
unfoldable pub build_class : World → String → List ℕ → StringDict → Result (World × ℕ)
unfolding linearize
build_class w name bases members = do
  let c = length w.classes
  mro ← linearize w.classes c bases
  ok (
    record w {
      classes =
          w.classes
          ++ record { name = name; bases = bases; mro = mro; members = members; frozen = false }
            ∷ [];
    },
    c,
  )

-- `$make_class(name, bases, namespace)`, with the positional and the named arguments: the world with the new class, and its address.
unfoldable pub make_class : World → List Value → List Items → Result (World × ℕ)
unfolding build_class collect_bases collect_members as_name as_tuple as_dict
make_class w (name_arg ∷ bases_arg ∷ ns_arg ∷ []) [] = do
  name ← as_name name_arg
  bases_tuple ← as_tuple bases_arg
  ns ← as_dict ns_arg
  bases ← collect_bases [] bases_tuple
  members ← collect_members [] ns
  build_class w name bases members
make_class w _ [] = err bad_arity
make_class w _ (_ ∷ _) = err unexpected_kwargs
