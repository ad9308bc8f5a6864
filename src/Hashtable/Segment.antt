-- ===== src/Hashtable/Segment.antt =====
-- The doubly-linked list of the entries, as a segment of memory from one link to another.
use starlark_go.Common.{◌≡◌, refl, sym, ◌∙◌, subst, List, [], ◌∷◌, ◌++◌, some, ◌≢◌, ◌⊎◌, inl, inr}
use starlark_go.Common.Members.{In, NoRepeats}
use starlark_go.Hashtable.{Addr, Link, next_of, Hashtable, read_link}
use starlark_go.Hashtable.Memory.{next_of-injective}

-- From the link `l` the addresses follow, each entry with its link back, and the last one's link is `m`.
module _ {V : Type 0} where
  abbrev pub Segment : Hashtable V → Link → List Addr → Link → Type 0
  Segment ht l [] m = l ≡ m
  Segment ht l (a ∷ xs) m =
      (read_link ht l ≡ some a) × ((ht.cell a).prev_link ≡ some l) × Segment ht (next_of a) xs m

-- The links that such a segment reads.
abbrev pub Reads : Link → Link → List Addr → Type 0
Reads t l [] = ⊥
Reads t l (a ∷ xs) = (t ≡ l) ⊎ Reads t (next_of a) xs

-- No entry of the list has the link.
abbrev pub Outside : Link → List Addr → Type 0
Outside l xs = (x : Addr) → In x xs → l ≢ next_of x

pub Reads-cases :
    (t l : Link) (xs : List Addr)
    → Reads t l xs
    → (t ≡ l) ⊎ ((x : Addr) × In x xs × (t ≡ next_of x))
Reads-cases t l [] h = absurd h
Reads-cases t l (a ∷ xs) (inl e) = inl e
Reads-cases t l (a ∷ xs) (inr h) = elim (Reads-cases t (next_of a) xs h) [
  | inl e ↦ inr (a, inl refl, e)
  | inr (x, i, e) ↦ inr (x, inr i, e)
]

-- A segment reads no link of an entry outside it, if it does not begin there.
pub Reads-ne :
    {t l : Link} (xs : List Addr) (a : Addr)
    → Reads t l xs
    → l ≢ next_of a
    → ¬ In a xs
    → t ≢ next_of a
Reads-ne {t} {l} xs a r h out e = elim (Reads-cases t l xs r) [
  | inl p ↦ h (sym p ∙ e)
  | inr (x, i, p) ↦ out (subst (λ (z : Addr). In z xs) (next_of-injective (sym p ∙ e)) i)
]

module _ {V : Type 0} where
  -- The last link of a segment: its first link if it is empty, or the link of one of its entries.
  pub Segment-last :
      (ht : Hashtable V) (l : Link) (xs : List Addr) (m : Link)
      → Segment ht l xs m
      → ((xs ≡ []) × (l ≡ m)) ⊎ ((x : Addr) × In x xs × (m ≡ next_of x))
  Segment-last ht l [] m s = inl (refl, s)
  Segment-last ht l (a ∷ xs) m s = elim (Segment-last ht (next_of a) xs m s.2) [
    | inl (e, p) ↦ inr (a, inl refl, sym p)
    | inr (x, i, p) ↦ inr (x, inr i, p)
  ]

  -- The last link is not read.
  pub Reads-ne_last :
      (ht : Hashtable V) (t l : Link) (xs : List Addr) (m : Link)
      → Segment ht l xs m
      → NoRepeats xs
      → Outside l xs
      → Reads t l xs
      → t ≢ m
  Reads-ne_last ht t l [] m s n out r e = r
  Reads-ne_last ht t l (a ∷ xs) m s n out (inl p) e = elim (Segment-last ht l (a ∷ xs) m s) [
    | inl (bad, _) ↦ cc
    | inr (x, i, q) ↦ out x i (sym p ∙ e ∙ q)
  ]
  Reads-ne_last ht t l (a ∷ xs) m s n out (inr r) e =
      Reads-ne_last ht t (next_of a) xs m s.2 n.1
        (λ x i q. n.0 (subst (λ (z : Addr). In z xs) (next_of-injective (sym q)) i)) r e

  -- A segment survives changes to links that it does not read and to entries that are not its own.
  pub Segment-frame :
      (ht ht' : Hashtable V) (l : Link) (xs : List Addr) (m : Link)
      → Segment ht l xs m
      → ((t : Link) → Reads t l xs → read_link ht' t ≡ read_link ht t)
      → ((x : Addr) → In x xs → (ht'.cell x).prev_link ≡ (ht.cell x).prev_link)
      → Segment ht' l xs m
  Segment-frame ht ht' l [] m s r p = s
  Segment-frame ht ht' l (a ∷ xs) m s r p = (
    r l (inl refl) ∙ s.0,
    p a (inl refl) ∙ s.1,
    Segment-frame ht ht' (next_of a) xs m s.2 (λ t h. r t (inr h)) (λ x h. p x (inr h)),
  )

  pub Segment-append :
      (ht : Hashtable V) (l : Link) (xs ys : List Addr) (m n : Link)
      → Segment ht l xs m
      → Segment ht m ys n
      → Segment ht l (xs ++ ys) n
  Segment-append ht l [] ys m n s u = subst (λ (z : Link). Segment ht z ys n) (sym s) u
  Segment-append ht l (a ∷ xs) ys m n s u =
      (s.0, s.1, Segment-append ht (next_of a) xs ys m n s.2 u)

  pub Segment-split :
      (ht : Hashtable V) (l : Link) (xs ys : List Addr) (n : Link)
      → Segment ht l (xs ++ ys) n
      → (m : Link) × Segment ht l xs m × Segment ht m ys n
  Segment-split ht l [] ys n s = (l, refl, s)
  Segment-split ht l (a ∷ xs) ys n s =
      let (m, u, v) = Segment-split ht (next_of a) xs ys n s.2 in (m, (s.0, s.1, u), v)
