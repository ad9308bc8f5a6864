-- ===== src/Class/Make/Linear.antt =====
-- `linearize` of starlark/class.go, against the invariant of the classes.
use starlark_go.Common.{
  ℕ, ◌<◌, ◌≡◌, refl, List, [], ◌∷◌, ◌++◌, map, get_elem?, length, arith, ◌⊎◌, inl, inr, All,
  Option-cases,
}
use starlark_go.Common.Members.{In, Subseq, none_left, pass}
use starlark_go.Class.World.{Class, mro_at}
use starlark_go.Class.Merge.Order.{InSome, AllSubseq, IsMerge}
use starlark_go.Class.Merge.Complete.{c3merge-IsMerge}
use starlark_go.Class.Make.{ok, err, sequences, linearize, no_order}
use starlark_go.Class.Make.Order.{HasOrder, IsValid}

-- An item of one of the merged sequences is a base, or in the order of a base.
InSome-sequences :
    (cs : List Class) (bases : List ℕ) (k : ℕ)
    → InSome k (sequences cs bases)
    → In k bases ⊎ InSome k (map (mro_at cs) bases)
unfolding sequences
InSome-sequences cs [] k h = absurd h
InSome-sequences cs (b ∷ bases) k h = split (map (mro_at cs) (b ∷ bases)) h
  where
    split :
        (ss : List (List ℕ)) → InSome k (ss ++ (b ∷ bases) ∷ []) → In k (b ∷ bases) ⊎ InSome k ss
    split [] (inl p) = inl p
    split [] (inr p) = absurd p
    split (s ∷ ss) (inl p) = inr (inl p)
    split (s ∷ ss) (inr p) = elim (split ss p) [ inl q ↦ inl q | inr q ↦ inr (inr q) ]

AllSubseq-parts :
    (ss : List (List ℕ)) (s r : List ℕ) → AllSubseq (ss ++ s ∷ []) r → AllSubseq ss r × Subseq s r
AllSubseq-parts [] s r h = (tt, h.0)
AllSubseq-parts (t ∷ ss) s r h = let (p, q) = AllSubseq-parts ss s r h.1 in ((h.0, p), q)

All-map :
    (cs : List Class) (r : List ℕ) (bases : List ℕ)
    → AllSubseq (map (mro_at cs) bases) r
    → All (λ b. Subseq (mro_at cs b) r) bases
All-map cs r [] h = tt
All-map cs r (b ∷ bases) h = (h.0, All-map cs r bases h.1)

sequences-kept :
    (cs : List Class) (bases r : List ℕ)
    → AllSubseq (sequences cs bases) r
    → All (λ b. Subseq (mro_at cs b) r) bases × Subseq bases r
unfolding sequences
sequences-kept cs [] r h = (tt, none_left)
sequences-kept cs (b ∷ bases) r h =
    let (p, q) = AllSubseq-parts (map (mro_at cs) (b ∷ bases)) (b ∷ bases) r h in
    (All-map cs r (b ∷ bases) p, q)

pub In-All : (n k : ℕ) (xs : List ℕ) → All (λ k. k < n) xs → In k xs → k < n
In-All n k [] h i = absurd i
In-All n k (x ∷ xs) h (inl e) = rw e h.0
In-All n k (x ∷ xs) h (inr i) = In-All n k xs h.1 i

All-In : (n : ℕ) (xs : List ℕ) → ((k : ℕ) → In k xs → k < n) → All (λ k. k < n) xs
All-In n [] h = tt
All-In n (x ∷ xs) h = (h x (inl refl), All-In n xs (λ k i. h k (inr i)))

-- In a valid world the order of a class holds it and older classes.
mro_at-older : (cs : List Class) → IsValid cs → (b k n : ℕ) → b < n → In k (mro_at cs b) → k < n
mro_at-older cs v b k n hb i = elim (Option-cases (get_elem? cs b)) [
  | inl e ↦ absurd (rw (e, mro_at) at i)
  | inr (c, e) ↦
      let o = v b c e in
      let i' : In k c.mro = rw (e, mro_at) at i in
      let i'' : In k (b ∷ o.rest) = rw o.self_first at i' in
      elim i'' as (λ _. k < n) [
        | inl p ↦ omega arith
        | inr q ↦ omega (arith, In-All b k o.rest o.rest_older q)
      ]
]

InSome-older :
    (cs : List Class)
    → IsValid cs
    → (bases : List ℕ) (k n : ℕ) → All (λ b. b < n) bases
    → InSome k (map (mro_at cs) bases)
    → k < n
InSome-older cs v [] k n h i = absurd i
InSome-older cs v (b ∷ bases) k n h (inl i) = mro_at-older cs v b k n h.0 i
InSome-older cs v (b ∷ bases) k n h (inr i) = InSome-older cs v bases k n h.1 i

merge-older :
    (cs : List Class)
    → IsValid cs
    → (bases r : List ℕ) → All (λ b. b < length cs) bases
    → IsMerge (sequences cs bases) r
    → All (λ k. k < length cs) r
merge-older cs v bases r h m = All-In (length cs) r (λ k i.
    elim (InSome-sequences cs bases k (m.sound k i)) [
      | inl p ↦ In-All (length cs) k bases h p
      | inr p ↦ InSome-older cs v bases k (length cs) h p
    ])

All-pass :
    (cs : List Class) (bases r : List ℕ) (i : ℕ)
    → All (λ b. Subseq (mro_at cs b) r) bases
    → All (λ b. Subseq (mro_at cs b) (i ∷ r)) bases
All-pass cs [] r i h = tt
All-pass cs (b ∷ bases) r i h = (pass h.0, All-pass cs bases r i h.1)

pub merge-HasOrder :
    (cs : List Class)
    → IsValid cs
    → (c : Class) (r : List ℕ) → c.mro ≡ length cs ∷ r
    → All (λ b. b < length cs) c.bases
    → IsMerge (sequences cs c.bases) r
    → HasOrder cs (length cs) c
merge-HasOrder cs v c r e h m =
    let older = merge-older cs v c.bases r h m in
    let (kept, ordered) = sequences-kept cs c.bases r m.ordered in
    record {
      rest = r;
      self_first = e;
      rest_older = older;
      once = rw e (λ i. absurd (omega (arith, In-All (length cs) (length cs) r older i)), m.once);
      bases_older = h;
      bases_ordered = rw e (pass ordered);
      orders_kept = rw e (All-pass cs c.bases r (length cs) kept);
      nothing_else = λ k i. InSome-sequences cs c.bases k (m.sound k i);
    }

pub linearize-IsMerge :
    (cs : List Class) (c : ℕ) (bases : List ℕ) {mro : List ℕ}
    → linearize cs c bases ≡ ok mro
    → (r : List ℕ) × (mro ≡ c ∷ r) × IsMerge (sequences cs bases) r
unfolding linearize
linearize-IsMerge cs c bases {mro} e = elim (c3merge-IsMerge (sequences cs bases)) [
  | inl (r, made, m) ↦ let e' : ok (c ∷ r) ≡ ok mro = rw (made, linearize) at e in (r, cc, m)
  | inr (failed, _) ↦ let e' : err no_order ≡ ok mro = rw (failed, linearize) at e in cc
]
