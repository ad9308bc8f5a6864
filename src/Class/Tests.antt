-- ===== src/Class/Tests.antt =====
-- A small hierarchy, and the theorems about classes at it.
use text.Mathlib.Text.{◌==◌ as str_eq}
use starlark_go.Common.{
  get_elem?, ℕ, ◌≡◌, refl, true, false, List, [], ◌∷◌, none, some, if◌then◌else◌, ◌≢◌, ◌⊎◌, ◌↔◌,
  arith,
}
use starlark_go.Common.Members.{In, NoRepeats}
use starlark_go.Class.World.{Value, Values, Items, Class, Instance, World, mro_at}
use starlark_go.Class.Merge.{merged, inconsistent, c3merge}
use starlark_go.Class.Merge.Order.{IsMerge, AllSubseq}
use starlark_go.Class.Merge.Complete.{c3merge-IsMerge}
use starlark_go.Class.Attributes.{
  value, panic, instance_attr, set_field, SuperProxy, proxy, new_super, super_attr, bind_found,
  lookup_in, lookup, is_instance,
}
use starlark_go.Class.Attributes.Resolution.{
  SplitsAt, Resolves, lookup-Resolves, super_attr-new_super, instance_attr-set_field,
}
use starlark_go.Class.Super.{call_internal, super, current_super_context}
use starlark_go.Class.Super.Nesting.{
  Steps, stop, next, ask, method, run, owners, run-owners, super-call_internal,
}
use starlark_go.Class.Make.{ok, linearize, make_class}
use starlark_go.Class.Make.Validity.{Appends, make_class-IsValid}
use starlark_go.Class.Make.Order.{IsValid}
use starlark_go.Class.Make.Inheritance.{linearize-single, is_instance-bases}

-- Two classes over one base merge; two opposite orders of the same bases do not.
diamond_merged : c3merge ((1 ∷ 0 ∷ []) ∷ (2 ∷ 0 ∷ []) ∷ (1 ∷ 2 ∷ []) ∷ []) ≡ merged (1 ∷ 2 ∷ 0 ∷ [])
unfolding c3merge
diamond_merged = refl

conflict_found : c3merge ((1 ∷ 2 ∷ []) ∷ (2 ∷ 1 ∷ []) ∷ []) ≡ inconsistent
unfolding c3merge
conflict_found = refl

abbrev diamond : List (List ℕ)
diamond = (1 ∷ 0 ∷ []) ∷ (2 ∷ 0 ∷ []) ∷ (1 ∷ 2 ∷ []) ∷ []

c3merge-IsMerge_example :
    ((r : List ℕ) × (c3merge diamond ≡ merged r) × IsMerge diamond r)
    ⊎ ((c3merge diamond ≡ inconsistent) × ((m : List ℕ) → AllSubseq diamond m → ¬ NoRepeats m))
c3merge-IsMerge_example = c3merge-IsMerge diamond

abbrev empty : World
empty = record { classes = []; instances = [] }

abbrev greet : Value
greet = Value.callable 7

abbrev base_class : Class
base_class = record {
  name = "A";
  bases = [];
  mro = 0 ∷ [];
  members = ("greet", greet) ∷ [];
  frozen = false;
}

abbrev base_items : Items
base_items = Items.item (Value.str "greet") greet Items.end

abbrev with_base : World
with_base = record { classes = base_class ∷ []; instances = [] }

base_made :
    make_class empty (Value.str "A" ∷ Value.tuple Values.nil ∷ Value.dict base_items ∷ []) []
    ≡ ok (with_base, 0)
unfolding make_class
base_made = refl

empty-IsValid : IsValid []
empty-IsValid i c e = cc

make_class-IsValid_example : Appends empty with_base 0
make_class-IsValid_example =
    make_class-IsValid empty (Value.str "A") (Value.tuple Values.nil) (Value.dict base_items)
      empty-IsValid tt base_made

with_base-IsValid : IsValid with_base.classes
with_base-IsValid = make_class-IsValid_example.3

linearize-single_example : linearize with_base.classes 1 (0 ∷ []) ≡ ok (1 ∷ 0 ∷ [])
linearize-single_example = linearize-single with_base.classes 1 0 with_base-IsValid (omega arith)

abbrev sub_class : Class
sub_class = record { name = "B"; bases = 0 ∷ []; mro = 1 ∷ 0 ∷ []; members = []; frozen = false }

abbrev some_b : Instance
some_b = record { class_of = 1; fields = []; frozen = false }

abbrev with_both : World
with_both = record { classes = base_class ∷ sub_class ∷ []; instances = some_b ∷ [] }

sub_made :
    make_class with_base
      (Value.str "B"
        ∷ Value.tuple (Values.cons (Value.class 0) Values.nil)
        ∷ Value.dict Items.end
        ∷ [])
      []
    ≡ ok (record { classes = base_class ∷ sub_class ∷ []; instances = [] }, 1)
unfolding make_class
sub_made = refl

with_both-IsValid : IsValid with_both.classes
with_both-IsValid =
    (make_class-IsValid with_base (Value.str "B")
      (Value.tuple (Values.cons (Value.class 0) Values.nil)) (Value.dict Items.end)
      with_base-IsValid (omega arith) sub_made).3

is_instance-bases_example :
    (is_instance with_both (Value.inst 0) (Value.class 0) ≡ some true)
    ↔ ((0 ≡ some_b.class_of) ⊎ ((b : ℕ) × In b sub_class.bases × In 0 (mro_at with_both.classes b)))
is_instance-bases_example = is_instance-bases with_both 0 0 with_both-IsValid refl refl

lookup-Resolves_example :
    Resolves with_both.classes
      (mro_at with_both.classes 1)
      "greet"
      (lookup with_both.classes 1 "greet")
lookup-Resolves_example = lookup-Resolves with_both.classes 1 "greet"

abbrev granted : SuperProxy
granted = record { start = 1; self = 0; obj_class = 1 }

super_granted : new_super with_both 1 (Value.inst 0) ≡ proxy granted
unfolding new_super
super_granted = refl

super_attr-new_super_example :
    (i : ℕ) × (self : Instance) × (Value.inst 0 ≡ Value.inst i)
    × (get_elem? with_both.instances i ≡ some self)
    × (before : List ℕ) × (after : List ℕ) × SplitsAt
        (mro_at with_both.classes self.class_of)
        before
        1
        after
    × (super_attr with_both.classes granted "greet"
        ≡ bind_found with_both.classes
            (lookup_in with_both.classes after "greet")
            (some i)
            self.class_of)
    × (super_attr with_both.classes granted "greet" ≢ panic)
super_attr-new_super_example = super_attr-new_super with_both 1 (Value.inst 0) "greet" super_granted

super_greets :
    super_attr with_both.classes granted "greet"
    ≡ value (Value.bound_method (Value.inst 0) greet "B" 0)
unfolding super_attr
super_greets = refl

instance_attr-set_field_example :
    (some_b.frozen ≡ true → set_field some_b "x" greet ≡ none)
    × (some_b.frozen ≡ false
        → (self' : Instance) × (set_field some_b "x" greet ≡ some self')
          × (instance_attr with_both 0 self' "greet" ≡ (
              if str_eq "x" "greet"
              then value greet
              else instance_attr with_both 0 some_b "greet")))
instance_attr-set_field_example = instance_attr-set_field with_both 0 some_b "x" "greet" greet

-- A method of class 0 that asks, and between two questions calls one of class 1 that asks too.
abbrev nested : Steps
nested =
    next
      (method (some 0) (Value.inst 0)
        (next ask (next (method (some 1) (Value.inst 0) (next ask stop)) (next ask stop))))
      stop

run-owners_example : run nested [] ≡ (owners (current_super_context []) nested, [])
run-owners_example = run-owners nested []

nested-owners :
    owners none nested
    ≡ some (record { class = 0; recv = Value.inst 0 })
      ∷ some (record { class = 1; recv = Value.inst 0 })
      ∷ some (record { class = 0; recv = Value.inst 0 })
      ∷ []
unfolding owners
nested-owners = refl

super-call_internal_example :
    call_internal
      (λ g xs kws st. (super with_both st [] [], st))
      (Value.inst 0)
      greet
      (some 1)
      []
      []
      []
    ≡ (super with_both [] (Value.class 1 ∷ Value.inst 0 ∷ []) [], [])
super-call_internal_example =
    super-call_internal with_both 1 (Value.inst 0) greet [] [] [] (λ g xs kws st. st)
      (λ g xs kws st. refl)
