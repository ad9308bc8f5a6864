-- ===== src/Compile/LineTable/Position.antt =====
-- `Position` of internal/compile/compile.go: the binary search in the decoded line table.
pub mod Last
use starlark_go.Common.{
  ℕ, zero, suc, ◌+◌, ◌-◌, ◌/◌, Bool, true, false, List, [], ◌∷◌, Option, none, some, length,
  get_elem?, ltb, leb, if◌then◌else◌, ◌>>=◌,
}
use starlark_go.Compile.LineTable.{Row}

-- `fn.lnt[i].pc`; the search stays inside the table.
abbrev pub pc_at : List Row → ℕ → ℕ
pc_at lnt i = elim (get_elem? lnt i) [ none ↦ 0 | some r ↦ r.pc ]

-- The predicate of the search: no later row begins at or before `pc`.
unfoldable pub is_last : List Row → ℕ → ℕ → Bool
is_last lnt pc h = if leb (length lnt - 1) h then true else ltb pc (pc_at lnt (suc h))

-- `for i < j`; none means that the fuel ran out.
unfoldable pub search : ℕ → List Row → ℕ → ℕ → ℕ → Option ℕ
unfolding is_last
search zero lnt pc i j = none
search (suc fuel) lnt pc i j =
    let h = (i + j) / 2 in
    let last = is_last lnt pc h in
    let rest = search fuel lnt pc (if last then i else suc h) (if last then h else j) in
    if ltb i j then rest else some i

-- The line and column of the row that was found, or zeros for an empty table. The interval is shorter
-- after each round, so its first length and one round more are enough.
unfoldable pub position : List Row → ℕ → Option (ℕ × ℕ)
unfolding search
position lnt pc = do
  i ← search (suc (length lnt)) lnt pc 0 (length lnt)
  some (elim (get_elem? lnt i) [ none ↦ (0, 0) | some r ↦ (r.line, r.col) ])
