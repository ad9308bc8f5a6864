-- ===== src/Hashtable/Search.antt =====
-- The search of a chain in starlark/hashtable.go, and what its result says of the whole table.
use starlark_go.Common.{
  ℕ, zero, suc, ◌+◌, ◌≤◌, ◌<◌, ◌≡◌, refl, sym, ◌∙◌, ap, subst, true, false, List, [], ◌∷◌, Option,
  none, some, ◌≢◌, inl, inr, ◌==◌, ==_iff, if◌then◌else◌, Bool-cases, arith,
}
use starlark_go.Common.Members.{In}
use starlark_go.Hashtable.{
  Values, Addr, Hashtable, Scan, failed, present, absent, bucket_id, nonzero,
}
use starlark_go.Hashtable.Removal.{search, search_chain}
use starlark_go.Hashtable.Insertion.{scan}
use starlark_go.Hashtable.Spec.{IsLawful, IsFresh, equal-cases}
use starlark_go.Hashtable.Invariant.{IsTable, entries}

pub ==_no : (a b : ℕ) → a ≢ b → (a == b) ≡ false
==_no a b h = ground arith

pub nonzero-ne : (h : ℕ) → nonzero h ≢ 0
unfolding nonzero
nonzero-ne h = ground arith

-- The result without the empty slot.
pub forget : Scan → Scan
forget failed = failed
forget (present a) = present a
forget (absent free) = absent none

module _ (vs : Values) where
  open vs use {Value, hash, equal}

  module _ (ht : Hashtable Value) (i h : ℕ) (k : Value) where
    -- No entry of the chain between the two positions has the hash and an equal key.
    abbrev pub Missing : ℕ → ℕ → Type 0
    Missing lo hi =
        (m : ℕ)
        → lo ≤ m
        → m < hi
        → (ht.cell (i, m)).hash_of ≡ h
        → equal k (ht.cell (i, m)).key ≢ some true

    -- An empty slot of the chain.
    abbrev pub IsFree : ℕ → Option ℕ → Type 0
    IsFree hi none = Unit {0}
    IsFree hi (some s) = ((ht.cell (i, s)).hash_of ≡ 0) × (s < hi)

    abbrev pub Ends : ℕ → ℕ → Scan → Type 0
    Ends lo hi failed = ⊥
    Ends lo hi (present a) =
        (a.0 ≡ i)
        × (lo ≤ a.1)
        × (a.1 < hi)
        × ((ht.cell a).hash_of ≡ h)
        × (equal k (ht.cell a).key ≡ some true)
    Ends lo hi (absent free) = Missing lo hi × IsFree hi free

    abbrev Passed : ℕ → Type 0
    Passed m = (ht.cell (i, m)).hash_of ≡ h → equal k (ht.cell (i, m)).key ≢ some true

    Ends-earlier : (lo hi : ℕ) (s : Scan) → Ends (suc lo) hi s → Passed lo → Ends lo hi s
    Ends-earlier lo hi failed e p = e
    Ends-earlier lo hi (present a) e p = (e.0, omega (arith, e.1), e.2, e.3, e.4)
    Ends-earlier lo hi (absent free) e p = (
      λ m l b. elim (Bool-cases (m == lo)) [
        | inl q ↦ subst Passed (sym ((==_iff m lo).0 q)) p
        | inr q ↦ e.0 m (ground arith) b
      ],
      e.1,
    )

    IsFree-step :
        (hi j : ℕ) (free : Option ℕ)
        → j < hi
        → IsFree hi free
        → IsFree hi (
            if (ht.cell (i, j)).hash_of == h
            then free
            else if (ht.cell (i, j)).hash_of == 0
            then some j
            else free)
    IsFree-step hi j free b f = elim (Bool-cases ((ht.cell (i, j)).hash_of == h)) [
      | inl e ↦ rw e f
      | inr e ↦ rw e (elim (Bool-cases ((ht.cell (i, j)).hash_of == 0)) [
        | inl z ↦ rw z ((==_iff _ 0).0 z, b)
        | inr z ↦ rw z f
      ])
    ]

    module _ (lawful : IsLawful vs) where
      -- One entry more in front.
      Ends-step :
          (j hi : ℕ) (rest : Scan)
          → j < hi
          → Ends (suc j) hi rest
          → Ends j hi (
              if (ht.cell (i, j)).hash_of == h
              then elim (equal k (ht.cell (i, j)).key) [
                | none ↦ failed
                | some eq ↦ if eq then present (i, j) else rest
              ]
              else rest)
      Ends-step j hi rest b e = elim (Bool-cases ((ht.cell (i, j)).hash_of == h)) [
        | inr q ↦ rw q (Ends-earlier j hi rest e (λ p. let yes = (==_iff _ h).1 p in cc))
        | inl q ↦ elim (equal-cases vs lawful k (ht.cell (i, j)).key) [
          | inl t ↦ rw (q, t) (refl, omega arith, b, (==_iff _ h).0 q, t)
          | inr t ↦
              rw (q, t)
                (Ends-earlier j hi rest e
                  (λ _ bad. let no : some true ≡ some false = sym bad ∙ t in cc))
        ]
      ]

      scan-Ends :
          (n j hi : ℕ) (free : Option ℕ)
          → j + n ≡ hi
          → IsFree hi free
          → Ends j hi (scan vs ht i h k n j free)
      unfolding scan
      scan-Ends zero j hi free e f = (λ m l b. absurd (omega arith), f)
      scan-Ends (suc n) j hi free e f =
          Ends-step j hi _ (omega arith)
            (scan-Ends n (suc j) hi _ (omega arith) (IsFree-step hi j free (omega arith) f))

      search-Ends : (n j hi : ℕ) → j + n ≡ hi → Ends j hi (search vs ht i h k n j)
      unfolding search
      search-Ends zero j hi e = (λ m l b. absurd (omega arith), tt)
      search-Ends (suc n) j hi e =
          Ends-step j hi _ (omega arith) (search-Ends n (suc j) hi (omega arith))

  -- The result of a search for `k` in a table with those entries.
  abbrev pub Finds : Hashtable Value → List Addr → Value → ℕ → Scan → Type 0
  Finds ht order k h failed = ⊥
  Finds ht order k h (present a) = In a order × (equal k (ht.cell a).key ≡ some true)
  Finds ht order k h (absent free) =
      IsFresh vs k (entries vs ht order)
      × IsFree ht (bucket_id ht h) h k (ht.sizes (bucket_id ht h)) free

  module _ (lawful : IsLawful vs) (ht : Hashtable Value) (order : List Addr)
      (t : IsTable vs ht order) (k : Value) (raw : ℕ) (hashed : hash k ≡ some raw) where
    -- An entry with an equal key stands in the chain that is searched.
    found-chain :
        (a : Addr)
        → In a order
        → equal k (ht.cell a).key ≡ some true
        → ((ht.cell a).hash_of ≡ nonzero raw)
          × (a.0 ≡ bucket_id ht (nonzero raw))
          × (a.1 < ht.sizes (bucket_id ht (nonzero raw)))
    found-chain a i e =
        let p = t.placed a i in
        let same_hash : some p.raw ≡ some raw =
          sym p.hashed ∙ sym (lawful.hash_equal k _ e) ∙ hashed in
        let same_raw : p.raw ≡ raw = cc in
        let stored = p.stored ∙ ap nonzero same_raw in
        let chain = p.chain ∙ ap (bucket_id ht) stored in
        (stored, chain, subst (λ (c : ℕ). a.1 < ht.sizes c) chain p.inside)

    Missing-IsFresh :
        (xs : List Addr)
        → ((a : Addr) → In a xs → In a order)
        → Missing ht
            (bucket_id ht (nonzero raw))
            (nonzero raw)
            k
            0
            (ht.sizes (bucket_id ht (nonzero raw)))
        → IsFresh vs k (entries vs ht xs)
    unfolding entries
    Missing-IsFresh [] sub m = tt
    Missing-IsFresh (a ∷ xs) sub m = (
      λ e.
          let (stored, chain, inside) = found-chain a (sub a (inl refl)) e in
          let at : a ≡ (bucket_id ht (nonzero raw), a.1) = λ i. (chain i, a.1) in
          m a.1 (omega arith) inside
            (subst (λ (b : Addr). (ht.cell b).hash_of ≡ nonzero raw) at stored)
            (subst (λ (b : Addr). equal k (ht.cell b).key ≡ some true) at e),
      Missing-IsFresh xs (λ b i. sub b (inr i)) m,
    )

    Ends-Finds :
        (s : Scan)
        → Ends ht
            (bucket_id ht (nonzero raw))
            (nonzero raw)
            k
            0
            (ht.sizes (bucket_id ht (nonzero raw)))
            s
        → Finds ht order k (nonzero raw) s
    Ends-Finds failed e = e
    Ends-Finds (present a) e = (t.used a (λ z. nonzero-ne raw (sym e.3 ∙ z)), e.4)
    Ends-Finds (absent free) e = (Missing-IsFresh order (λ a i. i) e.0, e.1)

    pub scan-Finds : Finds ht order k (nonzero raw) (
        scan vs ht
          (bucket_id ht (nonzero raw))
          (nonzero raw)
          k
          (ht.sizes (bucket_id ht (nonzero raw)))
          0
          none)
    scan-Finds = Ends-Finds _ (
        scan-Ends ht (bucket_id ht (nonzero raw)) (nonzero raw) k lawful
          (ht.sizes (bucket_id ht (nonzero raw))) 0 _ none (omega arith) tt)

    pub search_chain-Finds : Finds ht order k (nonzero raw) (search_chain vs ht (nonzero raw) k)
    unfolding search_chain
    search_chain-Finds = Ends-Finds _ (
        search-Ends ht (bucket_id ht (nonzero raw)) (nonzero raw) k lawful
          (ht.sizes (bucket_id ht (nonzero raw))) 0 _ (omega arith))
