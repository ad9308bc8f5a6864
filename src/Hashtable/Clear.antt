-- ===== src/Hashtable/Clear.antt =====
-- `clear` of starlark/hashtable.go.
use starlark_go.Common.{
  ◌≡◌, refl, subst, List, [], none, inl, inr, true, Bool-cases, ◌==◌, ==_iff, if◌then◌else◌,
}
use starlark_go.Common.Members.{In}
use starlark_go.Hashtable.{Values, Addr, at_head, Hashtable, ok, items, check_mutable, blank}
use starlark_go.Hashtable.Removal.{clear}
use starlark_go.Hashtable.Invariant.{IsTable, entries, items-entries}
use starlark_go.Hashtable.Grow.{IsTable-empty}

module _ (vs : Values) where
  open vs use {Value}

  abbrev emptied : Hashtable Value → Hashtable Value
  emptied ht =
      let m = if ht.buckets == 0 then ht else record ht { cell = λ _. blank vs; sizes = λ _. 8 } in
      record m { head = none; tail_link = at_head; len = 0 }

  clear-emptied : (ht : Hashtable Value) → check_mutable ht ≡ none → clear vs ht ≡ ok (emptied ht)
  unfolding clear
  clear-emptied ht m = rw (m, clear) refl

  emptied-IsTable :
      (ht : Hashtable Value) (order : List Addr) → IsTable vs ht order → IsTable vs (emptied ht) []
  emptied-IsTable ht order t = elim (Bool-cases (ht.buckets == 0)) [
    | inl z ↦ rw z (
        IsTable-empty vs (record ht { head = none; tail_link = at_head; len = 0 })
          (λ x. t.unused x (nil_cell z x)) refl refl refl)
    | inr z ↦ rw z (IsTable-empty vs _ (λ _. refl) refl refl refl)
  ]
    where
      nil_cell : (ht.buckets == 0) ≡ true → (x : Addr) → (ht.cell x).hash_of ≡ 0
      nil_cell z x = elim (Bool-cases ((ht.cell x).hash_of == 0)) [
        | inl e ↦ (==_iff _ 0).0 e
        | inr e ↦ absurd (
            subst (λ (xs : List Addr). In x xs) (t.nil_empty ((==_iff ht.buckets 0).0 z))
              (t.used x (λ q. let yes = (==_iff (ht.cell x).hash_of 0).1 q in cc)))
      ]

  -- A well-formed table that may change is well formed and without items after `clear`.
  pub clear-empty :
      (ht : Hashtable Value) (order : List Addr)
      → IsTable vs ht order
      → check_mutable ht ≡ none
      → (after : Hashtable Value) × (clear vs ht ≡ ok after)
        × IsTable vs after []
        × (items after ≡ [])
  unfolding entries
  clear-empty ht order t m = (
    emptied ht,
    clear-emptied ht m,
    emptied-IsTable ht order t,
    items-entries vs (emptied ht) [] (emptied-IsTable ht order t),
  )
