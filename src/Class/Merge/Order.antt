-- ===== src/Class/Merge/Order.antt =====
-- The order of the result of `c3merge` of starlark/class.go, and its number of rounds.
use starlark_go.Common.{
  ℕ, zero, suc, ◌+◌, ◌<◌, ◌≤◌, ◌≡◌, refl, sym, ◌∙◌, ap, true, false, List, [], ◌∷◌, ◌++◌, some,
  ◌==◌, ==_iff, length, arith, ◌⊎◌, inl, inr, append_assoc, Bool-cases, All, append-nil,
  Option-cases,
}
use starlark_go.Common.Members.{In, NoRepeats, Subseq, none_left, keep, pass}
use starlark_go.Class.Merge.{
  Merge, merged, inconsistent, Live, live, contains, in_tail, candidate, advance, merge_round,
  merge_loop, total, c3merge,
}

pub contains-In : (xs : List ℕ) (c : ℕ) → In c xs → contains xs c ≡ true
unfolding contains
contains-In [] c h = absurd h
contains-In (x ∷ xs) c (inl e) = ground (arith, e)
contains-In (x ∷ xs) c (inr h) = ground (arith, contains-In xs c h)

pub In-contains : (xs : List ℕ) (c : ℕ) → contains xs c ≡ true → In c xs
unfolding contains
In-contains [] c h = cc
In-contains (x ∷ xs) c h = elim (Bool-cases (x == c)) [
  | inl e ↦ inl (sym ((==_iff x c).0 e))
  | inr e ↦ inr (In-contains xs c (rw e at h))
]

-- The sequences of which `live` keeps the heads and tails.
abbrev total_live : List Live → ℕ
total_live [] = 0
total_live ((_, tail) ∷ seqs) = suc (length tail) + total_live seqs

total-live : (seqs : List (List ℕ)) → total_live (live seqs) ≡ total seqs
unfolding live
total-live [] = refl
total-live ([] ∷ seqs) = omega (arith, total-live seqs)
total-live ((x ∷ xs) ∷ seqs) = omega (arith, total-live seqs)

-- A candidate is the head of a sequence, and in no tail.
abbrev IsHead : ℕ → List Live → Type 0
IsHead c [] = ⊥
IsHead c ((head, _) ∷ seqs) = (c ≡ head) ⊎ IsHead c seqs

candidate-IsHead :
    (seqs rest : List Live) {c : ℕ}
    → candidate seqs rest ≡ some c
    → IsHead c rest × (in_tail c seqs ≡ false)
unfolding candidate
candidate-IsHead seqs [] e = cc
candidate-IsHead seqs ((head, tail) ∷ rest) {c} e = elim (Bool-cases (in_tail head seqs)) [
  | inl t ↦ let (h, f) = candidate-IsHead seqs rest (rw t at e) in (inr h, f)
  | inr t ↦
      let e' : some head ≡ some c = rw t at e in let h : head ≡ c = cc in (inl (sym h), rw (← h) t)
]

total-advance-le : (c : ℕ) (seqs : List Live) → total (advance c seqs) ≤ total_live seqs
unfolding advance
total-advance-le c [] = omega arith
total-advance-le c ((head, tail) ∷ seqs) = ground (arith, total-advance-le c seqs)

total-advance :
    (c : ℕ) (seqs : List Live) → IsHead c seqs → total (advance c seqs) < total_live seqs
unfolding advance
total-advance c [] h = absurd h
total-advance c ((head, tail) ∷ seqs) (inl e) = ground (arith, total-advance-le c seqs, e)
total-advance c ((head, tail) ∷ seqs) (inr h) = ground (arith, total-advance c seqs h)

-- Some sequence holds the item.
abbrev pub InSome : ℕ → List (List ℕ) → Type 0
InSome x [] = ⊥
InSome x (s ∷ seqs) = In x s ⊎ InSome x seqs

abbrev pub AllSubseq : List (List ℕ) → List ℕ → Type 0
AllSubseq seqs r = All (λ s. Subseq s r) seqs

abbrev InLive : ℕ → List Live → Type 0
InLive x [] = ⊥
InLive x ((head, tail) ∷ seqs) = ((x ≡ head) ⊎ In x tail) ⊎ InLive x seqs

abbrev pub LiveSubseq : List Live → List ℕ → Type 0
LiveSubseq seqs r = All (λ s. Subseq (s.0 ∷ s.1) r) seqs

-- A list of classes that has each class of the sequences once and no other, and keeps their orders.
pub record IsMerge (seqs : List (List ℕ)) (r : List ℕ) : Type 0 where
  pub ordered : AllSubseq seqs r
  pub sound : (x : ℕ) → In x r → InSome x seqs
  pub once : NoRepeats r

LiveSubseq-seqs : (seqs : List (List ℕ)) (r : List ℕ) → LiveSubseq (live seqs) r → AllSubseq seqs r
unfolding live
LiveSubseq-seqs [] r h = tt
LiveSubseq-seqs ([] ∷ seqs) r h = (none_left, LiveSubseq-seqs seqs r h)
LiveSubseq-seqs ((x ∷ xs) ∷ seqs) r h = (h.0, LiveSubseq-seqs seqs r h.1)

InLive-seqs : (seqs : List (List ℕ)) (x : ℕ) → InLive x (live seqs) → InSome x seqs
unfolding live
InLive-seqs [] x h = h
InLive-seqs ([] ∷ seqs) x h = inr (InLive-seqs seqs x h)
InLive-seqs ((y ∷ ys) ∷ seqs) x (inl h) = inl h
InLive-seqs ((y ∷ ys) ∷ seqs) x (inr h) = inr (InLive-seqs seqs x h)

advance-ordered :
    (c : ℕ) (seqs : List Live) (r : List ℕ) → AllSubseq (advance c seqs) r → LiveSubseq seqs (c ∷ r)
unfolding advance
advance-ordered c [] r h = tt
advance-ordered c ((head, tail) ∷ seqs) r h = (
  elim (Bool-cases (head == c)) [
    | inl e ↦ rw ((==_iff head c).0 e) (keep (rw e at (h.0)))
    | inr e ↦ pass (rw e at (h.0))
  ],
  advance-ordered c seqs r h.1,
)

IsHead-InLive : (c : ℕ) (seqs : List Live) → IsHead c seqs → InLive c seqs
IsHead-InLive c [] h = h
IsHead-InLive c ((head, tail) ∷ seqs) (inl e) = inl (inl e)
IsHead-InLive c ((head, tail) ∷ seqs) (inr h) = inr (IsHead-InLive c seqs h)

advance_sound : (c x : ℕ) (seqs : List Live) → InSome x (advance c seqs) → InLive x seqs
unfolding advance
advance_sound c x [] h = h
advance_sound c x ((head, tail) ∷ seqs) (inl h) =
    inl (elim (Bool-cases (head == c)) [ inl e ↦ inr (rw e at h) | inr e ↦ rw e at h ])
advance_sound c x ((head, tail) ∷ seqs) (inr h) = inr (advance_sound c x seqs h)

-- What has been taken is in no sequence any more.
advance-gone : (c : ℕ) (seqs : List Live) → in_tail c seqs ≡ false → ¬ InSome c (advance c seqs)
unfolding advance in_tail
advance-gone c [] f h = h
advance-gone c ((head, tail) ∷ seqs) f (inl h) = elim (Bool-cases (head == c)) [
  | inl e ↦ not_in_tail (rw e at h)
  | inr e ↦ elim (let here : In c (head ∷ tail) = rw e at h in here) as (λ _. ⊥) [
    | inl eq ↦ ground arith
    | inr t ↦ not_in_tail t
  ]
]
  where
    not_in_tail : ¬ In c tail
    not_in_tail t = let held = contains-In tail c t in ground arith
advance-gone c ((head, tail) ∷ seqs) f (inr h) = advance-gone c seqs (ground (arith)) h

-- The result of a loop that had `result` already: more classes behind it, or no consistent order.
data LoopResult (result : List ℕ) (seqs : List (List ℕ)) (m : Merge) : Type 0 where
  success : (r : List ℕ) → m ≡ merged (result ++ r) → IsMerge seqs r → LoopResult result seqs m
  failure : m ≡ inconsistent → LoopResult result seqs m

-- A merge of what is left after a round, with the class that the round took in front.
IsMerge-advance :
    (c : ℕ) (seqs : List (List ℕ)) (r : List ℕ)
    → IsHead c (live seqs)
    → in_tail c (live seqs) ≡ false
    → IsMerge (advance c (live seqs)) r
    → IsMerge seqs (c ∷ r)
IsMerge-advance c seqs r head free m = record {
  ordered = LiveSubseq-seqs seqs (c ∷ r) (advance-ordered c (live seqs) r m.ordered);
  sound = λ x. elim [
    | inl e ↦ InLive-seqs seqs x (rw e (IsHead-InLive c (live seqs) head))
    | inr h ↦ InLive-seqs seqs x (advance_sound c x (live seqs) (m.sound x h))
  ];
  once = (λ h. advance-gone c (live seqs) free (m.sound c h), m.once);
}

IsMerge-empty : (seqs : List (List ℕ)) → live seqs ≡ [] → IsMerge seqs []
IsMerge-empty seqs e = record {
  ordered = LiveSubseq-seqs seqs [] (rw e tt);
  sound = λ x h. absurd h;
  once = tt;
}

module _ (fuel : ℕ)
    (ih : (result : List ℕ) (seqs : List (List ℕ))
      → total seqs < fuel
      → LoopResult result seqs (merge_loop fuel result seqs)) where
  round_result :
      (result : List ℕ) (seqs : List (List ℕ)) (c : ℕ)
      → total seqs < suc fuel
      → candidate (live seqs) (live seqs) ≡ some c
      → LoopResult result seqs (merge_loop fuel (result ++ c ∷ []) (advance c (live seqs)))
  round_result result seqs c h e =
      let (head, free) = candidate-IsHead (live seqs) (live seqs) e in
      elim (ih (result ++ c ∷ []) (advance c (live seqs))
        (omega (arith, total-advance c (live seqs) head, total-live seqs))) [
          | success r made m ↦
              success (c ∷ r) (made ∙ ap merged (append_assoc result (c ∷ []) r))
                (IsMerge-advance c seqs r head free m)
          | failure made ↦ failure made
        ]

  round_lem :
      (result : List ℕ) (seqs : List (List ℕ)) (ls : List Live)
      → live seqs ≡ ls
      → total seqs < suc fuel
      → LoopResult result seqs (merge_round (merge_loop fuel) result ls)
  unfolding merge_round
  round_lem result seqs [] e h =
      success [] (ap merged (sym (append-nil result))) (IsMerge-empty seqs e)
  round_lem result seqs (l ∷ ls) e h = elim (Option-cases (candidate (l ∷ ls) (l ∷ ls))) [
    | inl p ↦ rw (p, merge_round) (failure refl)
    | inr (c, p) ↦ rw (p, merge_round) (rw e at (round_result result seqs c h (rw e p)))
  ]

merge_loop_lem :
    (fuel : ℕ) (result : List ℕ) (seqs : List (List ℕ))
    → total seqs < fuel
    → LoopResult result seqs (merge_loop fuel result seqs)
unfolding merge_loop
merge_loop_lem zero result seqs h = absurd (omega arith)
merge_loop_lem (suc fuel) result seqs h =
    round_lem fuel (merge_loop_lem fuel) result seqs (live seqs) refl h

-- The merge of any sequences is a list that keeps their orders, or there is an inconsistency.
pub c3merge_result :
    (seqs : List (List ℕ))
    → ((r : List ℕ) × (c3merge seqs ≡ merged r) × IsMerge seqs r) ⊎ (c3merge seqs ≡ inconsistent)
unfolding c3merge
c3merge_result seqs = elim (merge_loop_lem (suc (total seqs)) [] seqs (omega arith)) [
  | success r made m ↦ inl (r, made, m)
  | failure made ↦ inr made
]
