-- ===== src/Compile/LineTable/Position/Last.antt =====
-- The row that the binary search of `Position` of internal/compile/compile.go ends at.
use starlark_go.Common.{
  [], ◌∷◌, get_elem?, ℕ, zero, suc, ◌+◌, ◌-◌, ◌/◌, ◌≤◌, ◌<◌, ◌≡◌, refl, true, false, List, some,
  length, ltb, Bool-cases, inl, inr, arith,
}
use starlark_go.Compile.LineTable.{Row}
use starlark_go.Compile.LineTable.Position.{position, pc_at, is_last, search}

-- The rows stand in the order of their program counters.
abbrev pub IsSorted : List Row → Type 0
IsSorted lnt = (a b : ℕ) → a ≤ b → b < length lnt → pc_at lnt a ≤ pc_at lnt b

-- The row at `i` is the last that begins at or before `pc`, where the first row counts in any case.
abbrev pub IsFound : List Row → ℕ → ℕ → Type 0
IsFound lnt pc i =
    (i < length lnt)
    × ((m : ℕ) → 0 < m → m ≤ i → pc_at lnt m ≤ pc)
    × ((m : ℕ) → i < m → m < length lnt → pc < pc_at lnt m)

get_elem?-inside :
    {A : Type 0} (xs : List A) (i : ℕ) → i < length xs → (x : A) × (get_elem? xs i ≡ some x)
get_elem?-inside [] i h = absurd (omega arith)
get_elem?-inside (x ∷ xs) zero h = (x, refl)
get_elem?-inside (x ∷ xs) (suc i) h = get_elem?-inside xs i (omega arith)

module _ (lnt : List Row) (pc : ℕ) (sorted : IsSorted lnt) where
  abbrev Low : ℕ → Type 0
  Low i = (m : ℕ) → 0 < m → m ≤ i → pc_at lnt m ≤ pc

  abbrev High : ℕ → Type 0
  High j = (m : ℕ) → j < m → m < length lnt → pc < pc_at lnt m

  is_last-High : (h : ℕ) → is_last lnt pc h ≡ true → High h
  unfolding is_last
  is_last-High h e m p q =
      let s = sorted (suc h) m (omega arith) q in
      let first : pc < pc_at lnt (suc h) = ground arith in omega arith

  is_last-Low : (h : ℕ) → is_last lnt pc h ≡ false → (suc h < length lnt) × Low (suc h)
  unfolding is_last
  is_last-Low h e =
      let inside : suc h < length lnt = ground arith in
      let first : pc_at lnt (suc h) ≤ pc = ground arith in
      (inside, λ m p q. let s = sorted m (suc h) q inside in omega arith)

  -- The interval narrows down to the row.
  search-IsFound :
      (fuel i j : ℕ)
      → j - i < fuel
      → i ≤ j
      → j ≤ length lnt
      → 0 < length lnt
      → (i < length lnt)
      → Low i
      → High j
      → (k : ℕ) × (search fuel lnt pc i j ≡ some k) × IsFound lnt pc k
  unfolding search
  search-IsFound zero i j f o b n l low high = absurd (omega arith)
  search-IsFound (suc fuel) i j f o b n l low high = elim (Bool-cases (ltb i j)) [
    | inr e ↦ rw e (i, refl, (l, low, λ m p q. high m (ground arith) q))
    | inl e ↦
        let less : i < j = ground arith in
        rw e (elim (Bool-cases (is_last lnt pc ((i + j) / 2))) [
          | inl h ↦ rw h (
              search-IsFound fuel i ((i + j) / 2) (omega arith) (omega arith) (omega arith) n l low
                (is_last-High ((i + j) / 2) h))
          | inr h ↦
              let (inside, low') = is_last-Low ((i + j) / 2) h in
              rw h (
                search-IsFound fuel (suc ((i + j) / 2)) j (omega arith) (omega arith) b n inside
                  low' high)
        ])
  ]

  -- `Position` ends, and gives the line and column of the last row that begins at or before the program
  -- counter, or of the first row if none does, for a table that is not empty and sorted.
  pub position-IsFound :
      0 < length lnt
      → (k : ℕ) × (r : Row) × (get_elem? lnt k ≡ some r)
        × (position lnt pc ≡ some (r.line, r.col))
        × IsFound lnt pc k
  unfolding position
  position-IsFound n =
      let (k, out, found) =
        search-IsFound (suc (length lnt)) 0 (length lnt) (omega arith) (omega arith) (omega arith) n
          n (λ m p q. absurd (omega arith)) (λ m p q. absurd (omega arith)) in
      let (r, at) = get_elem?-inside lnt k found.0 in (k, r, at, rw (out, at) refl, found)
