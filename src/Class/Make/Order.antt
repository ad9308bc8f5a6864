-- ===== src/Class/Make/Order.antt =====
-- The invariant of the classes of starlark/class.go: a resolution order that fits the bases.
use starlark_go.Common.{
  ℕ, zero, suc, ◌<◌, ◌≤◌, ◌≡◌, refl, List, [], ◌∷◌, ◌++◌, map, some, get_elem?, length, arith, ◌⊎◌,
  inl, inr, All, Bool-cases,
}
use starlark_go.Common.Members.{In, NoRepeats, Subseq}
use starlark_go.Class.World.{Value, Values, Class, mro_at}
use starlark_go.Class.Merge.{contains}
use starlark_go.Class.Merge.Order.{InSome}
use starlark_go.Class.Make.{Result, ok, err, ◌>>=◌, collect_bases}

-- The resolution order of a class: the class itself, then older classes, each once. It keeps the
-- order of the bases and the order of each base's own resolution order, and holds no class besides
-- the class, its bases and theirs.
pub record HasOrder (cs : List Class) (i : ℕ) (c : Class) : Type 0 where
  pub rest : List ℕ
  pub self_first : c.mro ≡ i ∷ rest
  pub rest_older : All (λ k. k < i) rest
  pub once : NoRepeats c.mro
  pub bases_older : All (λ b. b < i) c.bases
  pub bases_ordered : Subseq c.bases c.mro
  pub orders_kept : All (λ b. Subseq (mro_at cs b) c.mro) c.bases
  pub nothing_else : (k : ℕ) → In k rest → In k c.bases ⊎ InSome k (map (mro_at cs) c.bases)

abbrev pub IsValid : List Class → Type 0
IsValid cs = (i : ℕ) (c : Class) → get_elem? cs i ≡ some c → HasOrder cs i c

-- The classes among the values are classes of the world.
abbrev pub Known : ℕ → Values → Type 0
Known n Values.nil = Unit
Known n (Values.cons (Value.class b) vs) = (b < n) × Known n vs
Known n (Values.cons _ vs) = Known n vs

pub ok-injective : {A : Type 0} {a b : A} → ok a ≡ ok b → a ≡ b
ok-injective e = cc

-- A chain that succeeds has a first step that does.
pub from_bind :
    {A B : Type 0} (next : A → Result B) (m : Result A) {b : B}
    → (m >>= next) ≡ ok b
    → (a : A) × (m ≡ ok a) × (next a ≡ ok b)
from_bind next (err fault) e = cc
from_bind next (ok a) e = (a, refl, e)

All-snoc : (n b : ℕ) (xs : List ℕ) → All (λ k. k < n) xs → b < n → All (λ k. k < n) (xs ++ b ∷ [])
All-snoc n b [] h hb = (hb, tt)
All-snoc n b (x ∷ xs) h hb = (h.0, All-snoc n b xs h.1 hb)

pub collect_bases-older :
    (n : ℕ) (acc : List ℕ) (vs : Values) {bases : List ℕ}
    → All (λ k. k < n) acc
    → Known n vs
    → collect_bases acc vs ≡ ok bases
    → All (λ k. k < n) bases
unfolding collect_bases
collect_bases-older n acc Values.nil {bases} ha hv e = let p : acc ≡ bases = cc in rw (← p) ha
collect_bases-older n acc (Values.cons (Value.class b) vs) ha hv e =
    elim (Bool-cases (contains acc b)) [
      | inl t ↦ cc (rw t at e)
      | inr t ↦ collect_bases-older n (acc ++ b ∷ []) vs (All-snoc n b acc ha hv.0) hv.1 (rw t at e)
    ]
collect_bases-older n acc (Values.cons _ vs) ha hv e = cc

pub get_elem?-lt {ℓ} :
    {A : Type ℓ} (xs : List A) (i : ℕ) {a : A} → get_elem? xs i ≡ some a → i < length xs
get_elem?-lt [] i e = cc
get_elem?-lt (x ∷ xs) zero e = omega arith
get_elem?-lt (x ∷ xs) (suc i) e = omega (arith, get_elem?-lt xs i e)

pub get_elem?-append {ℓ} :
    {A : Type ℓ} (xs ys : List A) (i : ℕ) → i < length xs → get_elem? (xs ++ ys) i ≡ get_elem? xs i
get_elem?-append [] ys i h = absurd (omega arith)
get_elem?-append (x ∷ xs) ys zero h = refl
get_elem?-append (x ∷ xs) ys (suc i) h = get_elem?-append xs ys i (omega arith)

pub get_elem?-last {ℓ} :
    {A : Type ℓ} (xs : List A) (y : A) (i : ℕ) {a : A}
    → get_elem? (xs ++ y ∷ []) i ≡ some a
    → (i < length xs) ⊎ ((i ≡ length xs) × (a ≡ y))
get_elem?-last [] y zero e = inr (refl, cc)
get_elem?-last [] y (suc i) e = cc
get_elem?-last (x ∷ xs) y zero e = inl (omega arith)
get_elem?-last (x ∷ xs) y (suc i) e = elim (get_elem?-last xs y i e) [
  | inl h ↦ inl (omega arith)
  | inr (h, p) ↦ inr (omega arith, p)
]

-- The classes of a world keep their orders when a class is added.
mro_at-append :
    (cs : List Class) (c : Class) (b : ℕ) → b < length cs → mro_at (cs ++ c ∷ []) b ≡ mro_at cs b
mro_at-append cs c b h = rw (get_elem?-append cs (c ∷ []) b h, mro_at)

map-mro_at-append :
    (cs : List Class) (c : Class) (n : ℕ) (bases : List ℕ)
    → n ≤ length cs
    → All (λ b. b < n) bases
    → map (mro_at (cs ++ c ∷ [])) bases ≡ map (mro_at cs) bases
map-mro_at-append cs c n [] h hb = refl
map-mro_at-append cs c n (b ∷ bases) h hb =
    rw (mro_at-append cs c b (omega arith), map-mro_at-append cs c n bases h hb.1)

orders_kept-append :
    (cs : List Class) (c : Class) (n : ℕ) (mro bases : List ℕ)
    → n ≤ length cs
    → All (λ b. b < n) bases
    → All (λ b. Subseq (mro_at cs b) mro) bases
    → All (λ b. Subseq (mro_at (cs ++ c ∷ []) b) mro) bases
orders_kept-append cs c n mro [] h hb hs = tt
orders_kept-append cs c n mro (b ∷ bases) h hb hs =
    (rw (mro_at-append cs c b (omega arith)) hs.0, orders_kept-append cs c n mro bases h hb.1 hs.1)

pub HasOrder-append :
    (cs : List Class) (new : Class) (i : ℕ) (c : Class)
    → i ≤ length cs
    → HasOrder cs i c
    → HasOrder (cs ++ new ∷ []) i c
HasOrder-append cs new i c h o = record {
  rest = o.rest;
  self_first = o.self_first;
  rest_older = o.rest_older;
  once = o.once;
  bases_older = o.bases_older;
  bases_ordered = o.bases_ordered;
  orders_kept = orders_kept-append cs new i c.mro c.bases h o.bases_older o.orders_kept;
  nothing_else = rw (map-mro_at-append cs new i c.bases h o.bases_older) o.nothing_else;
}
