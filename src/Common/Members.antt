-- ===== src/Common/Members.antt =====
-- Membership, lists without repeats, and subsequences, by recursion and as a family.
use mathlib.Core.Path.{◌≡◌, refl, sym, ap, subst}
use mathlib.Core.Logic.{◌⊎◌, inl, inr}
use mathlib.Core.List.{List, [], ◌∷◌, ◌++◌}

module _ {A : Type 0} where
  abbrev pub In : A → List A → Type 0
  In a [] = ⊥
  In a (x ∷ xs) = (a ≡ x) ⊎ In a xs

  abbrev pub NoRepeats : List A → Type 0
  NoRepeats [] = Unit {0}
  NoRepeats (x ∷ xs) = (¬ In x xs) × NoRepeats xs

  -- The items of the first list stand in the second, in the same order.
  pub data Subseq : List A → List A → Type 0 where
    none_left : {ys : List A} → Subseq [] ys
    keep : {x : A} {xs ys : List A} → Subseq xs ys → Subseq (x ∷ xs) (x ∷ ys)
    pass : {y : A} {xs ys : List A} → Subseq xs ys → Subseq xs (y ∷ ys)

module _ {A : Type 0} where
  pub In-append_left : (a : A) (xs ys : List A) → In a xs → In a (xs ++ ys)
  In-append_left a [] ys h = absurd h
  In-append_left a (x ∷ xs) ys (inl e) = inl e
  In-append_left a (x ∷ xs) ys (inr h) = inr (In-append_left a xs ys h)

  pub In-append_right : (a : A) (xs ys : List A) → In a ys → In a (xs ++ ys)
  In-append_right a [] ys h = h
  In-append_right a (x ∷ xs) ys h = inr (In-append_right a xs ys h)

  pub In-append : (a : A) (xs ys : List A) → In a (xs ++ ys) → In a xs ⊎ In a ys
  In-append a [] ys h = inr h
  In-append a (x ∷ xs) ys (inl e) = inl (inl e)
  In-append a (x ∷ xs) ys (inr h) = elim (In-append a xs ys h) [
    | inl i ↦ inl (inr i)
    | inr i ↦ inr i
  ]

  -- The item between the two parts is in neither, and the parts have no item in common.
  pub NoRepeats-middle :
      (xs ys : List A) (a : A)
      → NoRepeats (xs ++ a ∷ ys)
      → (¬ In a xs)
        × (¬ In a ys)
        × NoRepeats xs
        × NoRepeats ys
        × NoRepeats (xs ++ ys)
        × ((x : A) → In x xs → ¬ In x ys)
  NoRepeats-middle [] ys a n = (λ h. h, n.0, tt, n.1, n.1, λ x h. absurd h)
  NoRepeats-middle (x ∷ xs) ys a n =
      let (p, q, r, s, t, apart) = NoRepeats-middle xs ys a n.1 in
      (
        elim [
          | inl e ↦
              n.0 (
                subst (λ (z : A). In z (xs ++ a ∷ ys)) e (In-append_right a xs (a ∷ ys) (inl refl)))
          | inr h ↦ p h
        ],
        q,
        (λ h. n.0 (In-append_left x xs (a ∷ ys) h), r),
        s,
        (
          λ h. n.0 (elim (In-append x xs ys h) [
            | inl i ↦ In-append_left x xs (a ∷ ys) i
            | inr i ↦ In-append_right x xs (a ∷ ys) (inr i)
          ]),
          t,
        ),
        λ z. elim [
          | inl e ↦ λ i.
              n.0 (subst (λ (z : A). In z (xs ++ a ∷ ys)) e (In-append_right z xs (a ∷ ys) (inr i)))
          | inr h ↦ apart z h
        ],
      )

  pub NoRepeats-snoc : (xs : List A) (a : A) → NoRepeats xs → ¬ In a xs → NoRepeats (xs ++ a ∷ [])
  NoRepeats-snoc [] a n h = (λ i. i, tt)
  NoRepeats-snoc (x ∷ xs) a n h = (
    λ i. elim (In-append x xs (a ∷ []) i) as (λ _. ⊥) [
      | inl j ↦ n.0 j
      | inr (inl e) ↦ h (inl (sym e))
      | inr (inr bad) ↦ bad
    ],
    NoRepeats-snoc xs a n.1 (λ i. h (inr i)),
  )

  -- Where an item stands in a list.
  pub In-split :
      (a : A) (xs : List A)
      → In a xs
      → (before : List A) × (after : List A) × (xs ≡ before ++ a ∷ after)
  In-split a [] h = absurd h
  In-split a (x ∷ xs) (inl e) = ([], xs, ap (λ (t : A). t ∷ xs) (sym e))
  In-split a (x ∷ xs) (inr h) =
      let (before, after, e) = In-split a xs h in (x ∷ before, after, ap (λ (t : List A). x ∷ t) e)
