-- ===== src/Class/Merge.antt =====
-- `c3merge` and `inTail` of starlark/class.go. A class is its address, a number: the source compares
-- pointers.
pub mod Order
pub mod Complete
use starlark_go.Common.{
  ℕ, zero, suc, ◌+◌, ◌≡◌, Bool, true, false, ◌||◌, List, [], ◌∷◌, ◌++◌, Option, none, some, ◌==◌,
  if◌then◌else◌, length,
}

-- `stuck` is no value of the source: the loop ran out of fuel.
pub data Merge : Type 0 where
  merged : List ℕ → Merge
  inconsistent stuck : Merge

-- A sequence that is not exhausted, as its head `s[0]` and its tail `s[1:]`.
abbrev pub Live : Type 0
Live = ℕ × List ℕ

-- `for _, s := range seqs { if len(s) > 0 { live = append(live, s) } }`
unfoldable pub live : List (List ℕ) → List Live
live [] = []
live ([] ∷ seqs) = live seqs
live ((x ∷ xs) ∷ seqs) = (x, xs) ∷ live seqs

unfoldable pub contains : List ℕ → ℕ → Bool
contains [] c = false
contains (x ∷ xs) c = x == c || contains xs c

unfoldable pub in_tail : ℕ → List Live → Bool
unfolding contains
in_tail c [] = false
in_tail c ((_, tail) ∷ seqs) = contains tail c || in_tail c seqs

-- The first head, of the sequences not yet tried, that stands in the tail of no sequence.
unfoldable pub candidate : List Live → List Live → Option ℕ
unfolding in_tail
candidate seqs [] = none
candidate seqs ((head, _) ∷ more) =
    let later = candidate seqs more in if in_tail head seqs then later else some head

-- `if len(seqs[i]) > 0 && seqs[i][0] == cand { seqs[i] = seqs[i][1:] }`
unfoldable pub advance : ℕ → List Live → List (List ℕ)
advance cand [] = []
advance cand ((head, tail) ∷ seqs) =
    (if head == cand then tail else head ∷ tail) ∷ advance cand seqs

-- One round of the loop of `c3merge` on what `live` left, with the rest of the loop as a function.
unfoldable pub merge_round : (List ℕ → List (List ℕ) → Merge) → List ℕ → List Live → Merge
unfolding candidate advance
merge_round loop result [] = merged result
merge_round loop result (s ∷ seqs) = elim (candidate (s ∷ seqs) (s ∷ seqs)) [
  | none ↦ inconsistent
  | some cand ↦ loop (result ++ cand ∷ []) (advance cand (s ∷ seqs))
]

unfoldable pub merge_loop : ℕ → List ℕ → List (List ℕ) → Merge
unfolding merge_round live
merge_loop zero result seqs = stuck
merge_loop (suc fuel) result seqs = merge_round (merge_loop fuel) result (live seqs)

-- How many items are left. Each round takes one at least.
abbrev pub total : List (List ℕ) → ℕ
total [] = 0
total (s ∷ seqs) = length s + total seqs

unfoldable pub c3merge : List (List ℕ) → Merge
unfolding merge_loop
c3merge seqs = merge_loop (suc (total seqs)) [] seqs
