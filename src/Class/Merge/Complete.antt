-- ===== src/Class/Merge/Complete.antt =====
-- The inconsistencies that `c3merge` of starlark/class.go reports.
use starlark_go.Common.{
  ℕ, zero, suc, ◌≡◌, refl, sym, ◌∙◌, true, false, List, [], ◌∷◌, ◌++◌, none, ◌==◌, ◌⊎◌, inl, inr,
  ◌≢◌, Bool-cases, All, Option-cases,
}
use starlark_go.Common.Members.{In, NoRepeats, Subseq, none_left, keep, pass}
use starlark_go.Class.Merge.{
  Merge, merged, inconsistent, Live, live, contains, in_tail, candidate, advance, merge_round,
  merge_loop, total, c3merge,
}
use starlark_go.Class.Merge.Order.{In-contains, AllSubseq, LiveSubseq, IsMerge, c3merge_result}

pub In-Subseq : {s m : List ℕ} (x : ℕ) → Subseq s m → In x s → In x m
In-Subseq x none_left h = absurd h
In-Subseq x (keep s) (inl e) = inl e
In-Subseq x (keep s) (inr h) = inr (In-Subseq x s h)
In-Subseq x (pass s) h = inr (In-Subseq x s h)

Subseq-tail : {h : ℕ} {t m : List ℕ} → Subseq (h ∷ t) m → Subseq t m
Subseq-tail (keep s) = pass s
Subseq-tail (pass s) = pass (Subseq-tail s)

-- A sequence of `y ∷ m` has the head `y`, or lies in `m`; its tail lies in `m` in any case.
Subseq-split :
    {h y : ℕ} {t m : List ℕ} → Subseq (h ∷ t) (y ∷ m) → Subseq t m × ((h ≡ y) ⊎ Subseq (h ∷ t) m)
Subseq-split (keep s) = (s, inl refl)
Subseq-split (pass s) = (Subseq-tail s, inr s)

live-LiveSubseq : (seqs : List (List ℕ)) (m : List ℕ) → AllSubseq seqs m → LiveSubseq (live seqs) m
unfolding live
live-LiveSubseq [] m h = tt
live-LiveSubseq ([] ∷ seqs) m h = live-LiveSubseq seqs m h.1
live-LiveSubseq ((x ∷ xs) ∷ seqs) m h = (h.0, live-LiveSubseq seqs m h.1)

advance-AllSubseq :
    (c : ℕ) (seqs : List Live) (m : List ℕ) → LiveSubseq seqs m → AllSubseq (advance c seqs) m
unfolding advance
advance-AllSubseq c [] m h = tt
advance-AllSubseq c ((head, tail) ∷ seqs) m h = (
  elim (Bool-cases (head == c)) [ inl e ↦ rw e (Subseq-tail (h.0)) | inr e ↦ rw e (h.0) ],
  advance-AllSubseq c seqs m h.1,
)

-- Where the search finds no candidate, every head stands in some tail.
abbrev Blocked : List Live → List Live → Type 0
Blocked seqs rest = All (λ s. in_tail s.0 seqs ≡ true) rest

candidate-none : (seqs rest : List Live) → candidate seqs rest ≡ none → Blocked seqs rest
unfolding candidate
candidate-none seqs [] e = tt
candidate-none seqs ((head, tail) ∷ rest) e = elim (Bool-cases (in_tail head seqs)) [
  | inl t ↦ (t, candidate-none seqs rest (rw t at e))
  | inr t ↦ cc (rw t at e)
]

-- The tails lie in `m`, and `y` does not: no tail holds `y`.
in_tail-outside :
    (y : ℕ) (seqs : List Live) (m : List ℕ)
    → All (λ s. Subseq s.1 m) seqs
    → ¬ In y m
    → in_tail y seqs ≡ false
unfolding in_tail
in_tail-outside y [] m h out = refl
in_tail-outside y ((head, tail) ∷ seqs) m h out = elim (Bool-cases (contains tail y)) [
  | inl e ↦ absurd (out (In-Subseq y h.0 (In-contains tail y e)))
  | inr e ↦ rw e (in_tail-outside y seqs m h.1 out)
]

tails :
    (y : ℕ) (seqs : List Live) (m : List ℕ) → LiveSubseq seqs (y ∷ m) → All (λ s. Subseq s.1 m) seqs
tails y [] m h = tt
tails y ((head, tail) ∷ seqs) m h = ((Subseq-split h.0).0, tails y seqs m h.1)

-- If all heads are blocked, none of them is `y`, so the sequences lie in `m`.
Blocked-below :
    (y : ℕ) (all seqs : List Live) (m : List ℕ)
    → in_tail y all ≡ false
    → Blocked all seqs
    → LiveSubseq seqs (y ∷ m)
    → LiveSubseq seqs m
Blocked-below y all [] m f b h = tt
Blocked-below y all ((head, tail) ∷ seqs) m f b h = (
  elim ((Subseq-split h.0).1) [
    | inl e ↦ let wrong : true ≡ false = sym b.0 ∙ rw e f in cc
    | inr s ↦ s
  ],
  Blocked-below y all seqs m f b.1 h.1,
)

-- Sequences that all lie in a list without repeats are not all blocked.
not-Blocked :
    (m : List ℕ) (s : Live) (seqs : List Live)
    → NoRepeats m
    → LiveSubseq (s ∷ seqs) m
    → ¬ Blocked (s ∷ seqs) (s ∷ seqs)
not-Blocked [] s seqs n h b = elim (h.0) [ ]
not-Blocked (y ∷ m) s seqs n h b =
    let free = in_tail-outside y (s ∷ seqs) m (tails y (s ∷ seqs) m h) n.0 in
    not-Blocked m s seqs n.1 (Blocked-below y (s ∷ seqs) (s ∷ seqs) m free b h) b

merge_round-consistent :
    (m : List ℕ) (loop : List ℕ → List (List ℕ) → Merge)
    → ((result : List ℕ) (seqs : List (List ℕ))
        → AllSubseq seqs m
        → loop result seqs ≢ inconsistent)
    → NoRepeats m
    → (result : List ℕ) (seqs : List Live) → LiveSubseq seqs m
    → merge_round loop result seqs ≢ inconsistent
unfolding merge_round
merge_round-consistent m loop ih n result [] h e = cc
merge_round-consistent m loop ih n result (s ∷ seqs) h e =
    elim (Option-cases (candidate (s ∷ seqs) (s ∷ seqs))) [
      | inl p ↦ not-Blocked m s seqs n h (candidate-none (s ∷ seqs) (s ∷ seqs) p)
      | inr (c, p) ↦
          ih (result ++ c ∷ []) (advance c (s ∷ seqs)) (advance-AllSubseq c (s ∷ seqs) m h)
            (rw (p, merge_round) at e)
    ]

merge_loop-consistent :
    (m : List ℕ)
    → NoRepeats m
    → (fuel : ℕ) (result : List ℕ) (seqs : List (List ℕ)) → AllSubseq seqs m
    → merge_loop fuel result seqs ≢ inconsistent
unfolding merge_loop
merge_loop-consistent m n zero result seqs h e = cc
merge_loop-consistent m n (suc fuel) result seqs h e =
    merge_round-consistent m (merge_loop fuel) (merge_loop-consistent m n fuel) n result (live seqs)
      (live-LiveSubseq seqs m h) e

-- The merge always ends. It gives a list that keeps the order of each sequence, holds their classes
-- and no others, and repeats none; or it reports an inconsistent hierarchy, and then no list without
-- repeats keeps the order of each sequence.
pub c3merge-IsMerge :
    (seqs : List (List ℕ))
    → ((r : List ℕ) × (c3merge seqs ≡ merged r) × IsMerge seqs r)
      ⊎ ((c3merge seqs ≡ inconsistent) × ((m : List ℕ) → AllSubseq seqs m → ¬ NoRepeats m))
unfolding c3merge
c3merge-IsMerge seqs = elim (c3merge_result seqs) [
  | inl r ↦ inl r
  | inr e ↦ inr (e, λ m h n. merge_loop-consistent m n (suc (total seqs)) [] seqs h e)
]
