-- ===== src/Class/Attributes.antt =====
-- Attribute access: `lookup`, `bindMember`, the `Attr` and `SetField` methods of starlark/class.go,
-- and `newSuper` and `isinstance` of starlark/classbuiltins.go.
pub mod Resolution
use Prim.Native.String.{String}
use starlark_go.Common.{
  ℕ, Bool, true, false, List, [], ◌∷◌, Option, none, some, get_elem?, set, if◌then◌else◌, ◌==◌,
  ◌>>=◌,
}
use starlark_go.Class.World.{
  Value, Values, Class, Instance, World, StringDict, find, mro_at, members_at, name_at,
}
use starlark_go.Class.Merge.{contains}

pub data Error : Type 0 where
  not_callable frozen_instance not_instance not_in_mro not_class : Error

-- `absent` is the answer `nil, nil` of an `Attr` method; `panic` a run-time panic.
pub data Found : Type 0 where
  value : Value → Found
  absent : Found
  error : Error → Found
  panic : Found

-- The first class of a resolution order that has the member, with the member.
unfoldable pub lookup_in : List Class → List ℕ → String → Option (Value × ℕ)
unfolding find
lookup_in cs [] name = none
lookup_in cs (k ∷ mro) name = elim (find name (members_at cs k)) [
  | none ↦ lookup_in cs mro name
  | some v ↦ some (v, k)
]

unfoldable pub lookup : List Class → ℕ → String → Option (Value × ℕ)
unfolding lookup_in
lookup cs c name = lookup_in cs (mro_at cs c) name

-- The cases of the type switch on a value that is a `Callable`.
unfoldable pub is_callable : Value → Bool
is_callable (Value.class _) = true
is_callable (Value.bound_method _ _ _ _) = true
is_callable (Value.callable _) = true
is_callable _ = false

-- What binds a callable member: the instance if there is one.
abbrev pub bind_callable : List Class → Value → Option ℕ → ℕ → ℕ → Found
bind_callable cs m none recv_class defining = value m
bind_callable cs m (some i) recv_class defining =
    value (Value.bound_method (Value.inst i) m (name_at cs recv_class) defining)

unfoldable pub bind_member : List Class → Value → Option ℕ → ℕ → ℕ → Found
unfolding is_callable
bind_member cs (Value.static_method fn) inst recv_class defining = value fn
bind_member cs (Value.class_method fn) inst recv_class defining =
    if is_callable fn
    then value (Value.bound_method (Value.class recv_class) fn (name_at cs recv_class) defining)
    else error not_callable
bind_member cs raw inst recv_class defining =
    if is_callable raw then bind_callable cs raw inst recv_class defining else value raw

abbrev pub bind_found : List Class → Option (Value × ℕ) → Option ℕ → ℕ → Found
bind_found cs none inst recv_class = absent
bind_found cs (some (raw, dc)) inst recv_class = bind_member cs raw inst recv_class dc

-- `(*Class).Attr`.
unfoldable pub class_attr : List Class → ℕ → String → Found
unfolding lookup bind_member
class_attr cs c name = bind_found cs (lookup cs c name) none c

-- The field of the instance, if it has it.
abbrev pub or_found : Option Value → Found → Found
or_found none found = found
or_found (some v) found = value v

-- `(*Instance).Attr`.
unfoldable pub instance_attr : World → ℕ → Instance → String → Found
unfolding lookup bind_member find
instance_attr w i self name =
    or_found (find name self.fields)
      (bind_found w.classes (lookup w.classes self.class_of name) (some i) self.class_of)

-- `(*Instance).SetField`: the error, or the new instance.
unfoldable pub set_field : Instance → String → Value → Option Instance
set_field self name v =
    if self.frozen then none else some (record self { fields = (name, v) ∷ self.fields })

pub record SuperProxy : Type 0 where
  pub start : ℕ
  pub self : ℕ
  pub obj_class : ℕ

pub data Super : Type 0 where
  proxy : SuperProxy → Super
  refused : Error → Super

-- `newSuper`.
unfoldable pub new_super : World → ℕ → Value → Super
unfolding contains
new_super w cls (Value.inst i) = elim (get_elem? w.instances i) [
  | none ↦ refused not_instance
  | some self ↦
      if contains (mro_at w.classes self.class_of) cls
      then proxy (record { start = cls; self = i; obj_class = self.class_of })
      else refused not_in_mro
]
new_super w cls _ = refused not_instance

-- `mro[i+1:]` after the loop that looks for `start`: none is the panic of a slice out of bounds.
unfoldable pub after_start : ℕ → List ℕ → Option (List ℕ)
after_start start [] = none
after_start start (k ∷ mro) = if k == start then some mro else after_start start mro

-- `(*superProxy).Attr`.
unfoldable pub super_attr : List Class → SuperProxy → String → Found
unfolding after_start lookup_in bind_member
super_attr cs s name = elim (after_start s.start (mro_at cs s.obj_class)) [
  | none ↦ panic
  | some rest ↦ bind_found cs (lookup_in cs rest name) (some s.self) s.obj_class
]

-- `match` in `isinstance`: whether the class is in the instance's resolution order.
unfoldable pub matches : List Class → ℕ → Value → Option Bool
unfolding contains
matches cs c (Value.class target) = some (contains (mro_at cs c) target)
matches cs c _ = none

-- The loop over a tuple of classes: it stops at the first match or error.
unfoldable pub matches_any : List Class → ℕ → Values → Option Bool
unfolding matches
matches_any cs c Values.nil = some false
matches_any cs c (Values.cons t ts) =
    let later = matches_any cs c ts in matches cs c t >>= λ m. if m then some true else later

-- The second argument of `isinstance`: a tuple of classes, or one class.
matches_info : List Class → ℕ → Value → Option Bool
unfolding matches_any
matches_info cs c (Value.tuple ts) = matches_any cs c ts
matches_info cs c info = matches cs c info

-- `isinstance(obj, classinfo)` on its two arguments; none is the error.
unfoldable pub is_instance : World → Value → Value → Option Bool
unfolding matches_info
is_instance w (Value.inst i) info = elim (get_elem? w.instances i) [
  | none ↦ some false
  | some self ↦ matches_info w.classes self.class_of info
]
is_instance w _ info = some false
