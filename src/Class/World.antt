-- ===== src/Class/World.antt =====
-- The values and objects of starlark/class.go. Classes and instances are shared and compared by
-- pointer, so a value holds an address, and a world holds the objects by address.
use Prim.Native.String.{String}
use text.Mathlib.Text.{◌==◌ as str_eq}
use starlark_go.Common.{ℕ, Bool, List, [], ◌∷◌, Option, none, some, get_elem?, if◌then◌else◌}

-- A type switch in the source asks for `*staticMethod`, `*classMethod`, `Callable` and so on:
-- `callable` stands for the callables that are neither classes nor bound methods, `plain` for the
-- values of all other types.
mutual
  pub data Value : Type 0 where
    str : String → Value
    tuple : Values → Value
    dict : Items → Value
    class : ℕ → Value
    inst : ℕ → Value
    static_method class_method : Value → Value
    bound_method : Value → Value → String → ℕ → Value
    callable plain : ℕ → Value

  pub data Values : Type 0 where
    nil : Values
    cons : Value → Values → Values

  pub data Items : Type 0 where
    end : Items
    item : Value → Value → Items → Items

-- `StringDict` and `map[string]Value`: the entry nearest the front counts.
abbrev pub StringDict : Type 0
StringDict = List (String × Value)

unfoldable pub find : String → StringDict → Option Value
find name [] = none
find name ((key, v) ∷ entries) = if str_eq key name then some v else find name entries

pub record Class : Type 0 where
  pub name : String
  pub bases : List ℕ
  pub mro : List ℕ
  pub members : StringDict
  pub frozen : Bool

pub record Instance : Type 0 where
  pub class_of : ℕ
  pub fields : StringDict
  pub frozen : Bool

pub record World : Type 0 where
  pub classes : List Class
  pub instances : List Instance

-- Fields of the class at an address. A world in which an object holds an address of no class does
-- not occur, and such a class counts as empty.
abbrev pub mro_at : List Class → ℕ → List ℕ
mro_at cs k = elim (get_elem? cs k) [ none ↦ [] | some c ↦ c.mro ]

abbrev pub members_at : List Class → ℕ → StringDict
members_at cs k = elim (get_elem? cs k) [ none ↦ [] | some c ↦ c.members ]

abbrev pub name_at : List Class → ℕ → String
name_at cs k = elim (get_elem? cs k) [ none ↦ "" | some c ↦ c.name ]
