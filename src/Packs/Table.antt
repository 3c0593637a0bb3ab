-- ===== src/Packs/Table.antt =====
-- internal/service/pack_calculator.go: the pooled arrays (`dpState`, `getDPState`, `putDPState`)
-- and the two loops of `calculateCore` that fill and read them.
-- A cell of `dp` is `none` where the code keeps -1. An index that is negative or past the end
-- panics.
use pack_service.Base.{
  ℕ, zero, suc, ◌+◌, ◌-◌, Bool, true, false, not, List, [], ◌∷◌, ◌++◌, Option, none, some, ltb, leb,
  if◌then◌else◌, length, get_elem?, set, take, drop, replicate,
}
use pack_service.Base.{Outcome, returns, panics, ◌>>=◌, or_panic}
use pack_service.Base.Int.{ℤ, pos, negsuc, ltb_ℤ}
use pack_service.Base.Machine.{add_int}

-- A Go slice: its cells, and the cells between its length and its capacity.
pub record Slice (A : Type 0) : Type 0 where
  pub cells : List A
  pub spare : List A

abbrev pub capacity : {A : Type 0} → Slice A → ℕ
capacity s = length s.cells + length s.spare

-- `s[:n]`
unfoldable pub reslice : {A : Type 0} → Slice A → ℕ → Outcome (Slice A)
reslice s n =
    let all = s.cells ++ s.spare in
    if leb n (length all)
    then returns (record { cells = take n all; spare = drop n all })
    else panics

-- `make([]int, size)`, over the zero `z` of the cells
abbrev make : {A : Type 0} → A → ℕ → Slice A
make z size = record { cells = replicate size z; spare = [] }

pub record DpState : Type 0 where
  pub dp : Slice (Option ℕ)
  pub parent : Slice ℤ

-- What `dpPool.New` returns.
unfoldable pub new_dp_state : DpState
new_dp_state = record {
  dp = record { cells = []; spare = replicate 10000 (some 0) };
  parent = record { cells = []; spare = replicate 10000 (pos 0) };
}

-- The resize at the start of `getDPState`.
unfoldable pub resize : DpState → ℕ → Outcome DpState
unfolding reslice
resize state size =
    if ltb (capacity state.dp) size
    then returns (record { dp = make (some 0) size; parent = make (pos 0) size })
    else do
      dp ← reslice state.dp size
      parent ← reslice state.parent size
      returns (record { dp = dp; parent = parent })

-- The reset loop, which runs over the indices of `dp` and writes both arrays.
unfoldable pub reset_cells : List (Option ℕ) → List ℤ → Outcome (List (Option ℕ) × List ℤ)
reset_cells [] parent = returns ([], parent)
reset_cells (_ ∷ dp) [] = panics
reset_cells (_ ∷ dp) (_ ∷ parent) = do
  (dp', parent') ← reset_cells dp parent
  returns (none ∷ dp', negsuc 0 ∷ parent')

-- `arr[i] = v`
unfoldable pub write : {A : Type 0} → List A → ℕ → A → Outcome (List A)
write arr i v = if ltb i (length arr) then returns (set arr i v) else panics

-- `getDPState`, on the state that the pool hands out, whatever an earlier calculation left in it.
unfoldable pub get_dp_state : DpState → ℕ → Outcome DpState
unfolding resize reset_cells write
get_dp_state pooled size = do
  state ← resize pooled size
  (dp, parent) ← reset_cells state.dp.cells state.parent.cells
  dp0 ← write dp 0 (some 0)
  returns (record {
    dp = record { cells = dp0; spare = state.dp.spare };
    parent = record { cells = parent; spare = state.parent.spare };
  })

-- `putDPState`: the state that goes back to the pool.
unfoldable pub put_dp_state : DpState → DpState
unfolding new_dp_state
put_dp_state state = if ltb 100000 (capacity state.dp) then new_dp_state else state

-- The two arrays while `calculateCore` runs.
pub record Table : Type 0 where
  pub dp : List (Option ℕ)
  pub parent : List ℤ

-- The inner test: a cell is improved if it is unset (-1 in the code) or holds more packs.
abbrev pub improves : ℕ → Option ℕ → Bool
improves new_packs none = true
improves new_packs (some d) = ltb new_packs d

-- The body of the loop over the pack sizes, where `next` is at most `maxItems`.
unfoldable pub relax_at : ℕ → ℤ → ℤ → Table → Outcome Table
unfolding write
relax_at new_packs size (negsuc _) t = panics
relax_at new_packs size (pos next) t = do
  old ← or_panic (get_elem? t.dp next)
  if improves new_packs old
      then (do
        dp ← write t.dp next (some new_packs)
        parent ← write t.parent next size
        returns (record { dp = dp; parent = parent }))
      else returns t

-- The body of the loop over the pack sizes, at index `i` where `dp[i]` is `d`. `dp[i]` is read
-- again in every round by the code, and read here once for each round.
unfoldable pub relax : ℕ → ℕ → ℤ → Table → Outcome Table
relax max_items i size t = do
  let next = add_int (pos i) size
  here ← or_panic (get_elem? t.dp i)
  if ltb_ℤ (pos max_items) next
      then returns t
      else elim here [ none ↦ relax_at 0 size next t | some d ↦ relax_at (d + 1) size next t ]

unfoldable pub relax_all : ℕ → ℕ → List ℤ → Table → Outcome Table
relax_all max_items i [] t = returns t
relax_all max_items i (size ∷ sizes) t = do
  t' ← relax max_items i size t
  relax_all max_items i sizes t'

-- `dp[j] != -1 && dp[j] < dp[i]`
abbrev pub beats : Option ℕ → ℕ → Bool
beats none d = false
beats (some e) d = ltb e d

-- The search for a better cell, from index `j` on, with `rounds` indices left up to `maxItems`.
unfoldable pub has_better : ℕ → ℕ → ℤ → List (Option ℕ) → ℕ → Outcome Bool
has_better zero j limit dp d = returns false
has_better (suc rounds) j limit dp d =
    let rest = has_better rounds (suc j) limit dp d in
    if ltb_ℤ (pos j) limit
    then (do cell ← or_panic (get_elem? dp j); if beats cell d then returns true else rest)
    else returns false

-- The early exit: whether the loop is left after index `i`.
unfoldable pub exits : ℕ → ℕ → ℤ → ℕ → Table → Outcome Bool
exits max_items target smallest i t = do
  here ← or_panic (get_elem? t.dp i)
  elim here [
    | none ↦ returns false
    | some d ↦
        if leb target i
        then (do
          better ← has_better (max_items - i) (i + 1) (add_int (pos i) smallest) t.dp d
          returns (not better))
        else returns false
  ]

-- One round of the outer loop: the table, and whether the loop is left.
unfoldable pub round : ℕ → ℕ → List ℤ → ℤ → ℕ → Table → Outcome (Table × Bool)
round max_items target sizes smallest i t = do
  here ← or_panic (get_elem? t.dp i)
  elim here [
    | none ↦ returns (t, false)
    | some _ ↦ do
      t' ← relax_all max_items i sizes t
      stop ← exits max_items target smallest i t'
      returns (t', stop)
  ]

-- The outer loop, with `rounds` indices left up to `maxItems`.
unfoldable pub fill : ℕ → ℕ → ℕ → List ℤ → ℤ → ℕ → Table → Outcome Table
fill zero max_items target sizes smallest i t = returns t
fill (suc rounds) max_items target sizes smallest i t = do
  (t', stop) ← round max_items target sizes smallest i t
  elim stop [ true ↦ returns t' | false ↦ fill rounds max_items target sizes smallest (suc i) t' ]

-- The search for the least `items`, with `rounds` indices left up to `maxItems`.
unfoldable pub find_min : ℕ → ℤ → List (Option ℕ) → ℕ → Outcome (Option ℕ)
find_min zero limit dp items = returns none
find_min (suc rounds) limit dp items =
    let rest = find_min rounds limit dp (suc items) in
    if ltb_ℤ (pos items) limit
    then (do
      cell ← or_panic (get_elem? dp items)
      elim cell [ none ↦ rest | some _ ↦ returns (some items) ])
    else returns none
