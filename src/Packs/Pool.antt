-- ===== src/Packs/Pool.antt =====
-- `getDPState` and `putDPState`: a calculation starts from the same arrays whatever the state from
-- the pool was used for, and the pool stays usable.
use pack_service.Base.{
  ℕ, zero, suc, ◌≤◌, ◌<◌, ◌≡◌, refl, List, [], ◌∷◌, ◌++◌, Option, none, some, arith, ltb,
  Bool-cases, inl, inr,
}
use pack_service.Base.{
  length, set, replicate, leb_of_le, length-take, length-drop, length-append, length-replicate,
}
use pack_service.Base.{returns, Returns, returned, Returns->>=}
use pack_service.Base.Int.{ℤ, pos, negsuc}
use pack_service.Packs.Table.{
  Slice, capacity, DpState, reslice, resize, reset_cells, write, get_dp_state, put_dp_state,
}

pub write_of_lt :
    {A : Type 0} (arr : List A) (i : ℕ) (v : A)
    → i < length arr
    → write arr i v ≡ returns (set arr i v)
unfolding write
write_of_lt arr i v h = ground arith

-- `getDPState` looks at the capacity of `dp` alone, and cuts both arrays.
abbrev pub IsUsableState : DpState → Type 0
IsUsableState s = capacity s.dp ≤ capacity s.parent

abbrev pub fresh_dp : ℕ → List (Option ℕ)
fresh_dp size = set (replicate size none) 0 (some 0)

abbrev pub fresh_parent : ℕ → List ℤ
fresh_parent size = replicate size (negsuc 0)

pub record IsFresh (size : ℕ) (s : DpState) : Type 0 where
  pub dp : s.dp.cells ≡ fresh_dp size
  pub parent : s.parent.cells ≡ fresh_parent size
  pub usable : IsUsableState s

record IsCut {A : Type 0} (s : Slice A) (n : ℕ) (r : Slice A) : Type 0 where
  cells : length r.cells ≡ n
  capacities : capacity r ≡ capacity s

reslice-IsCut :
    {A : Type 0} (s : Slice A) (n : ℕ) → n ≤ capacity s → Returns (IsCut s n) (reslice s n)
unfolding reslice
reslice-IsCut s n h =
    let all = s.cells ++ s.spare in
    let total : length all ≡ capacity s = length-append s.cells s.spare in
    rw (leb_of_le n (length all) (omega arith)) (
      returned (record {
        cells = omega (arith, length-take n all);
        capacities = omega (arith, length-take n all, length-drop n all);
      }))

record IsResized (size : ℕ) (r : DpState) : Type 0 where
  dp : length r.dp.cells ≡ size
  parent : length r.parent.cells ≡ size
  usable : IsUsableState r

resize-IsResized :
    (s : DpState) (size : ℕ) → IsUsableState s → Returns (IsResized size) (resize s size)
unfolding resize
resize-IsResized s size h = elim (Bool-cases (ltb (capacity s.dp) size)) [
  | inl grows ↦ rw grows (
      returned (record {
        dp = length-replicate {A = Option ℕ} size (some 0);
        parent = length-replicate {A = ℤ} size (pos 0);
        usable = omega (
          arith,
          length-replicate {A = Option ℕ} size (some 0),
          length-replicate {A = ℤ} size (pos 0),
        );
      }))
  | inr fits ↦ rw fits (
      Returns->>= (reslice-IsCut s.dp size (ground arith)) λ d p.
        Returns->>= (reslice-IsCut s.parent size (ground arith)) λ e q. returned (record {
          dp = p.cells;
          parent = q.cells;
          usable = omega (arith, p.capacities, q.capacities);
        }))
]

reset_cells_lem :
    (n : ℕ) (dp : List (Option ℕ)) (parent : List ℤ)
    → length dp ≡ n
    → length parent ≡ n
    → reset_cells dp parent ≡ returns (replicate n none, replicate n (negsuc 0))
unfolding reset_cells
reset_cells_lem zero [] [] e f = refl
reset_cells_lem (suc n) (x ∷ dp) (y ∷ parent) e f =
    rw (reset_cells_lem n dp parent (omega arith) (omega arith))
reset_cells_lem zero (x ∷ dp) parent e f = absurd (omega arith)
reset_cells_lem zero [] (y ∷ parent) e f = absurd (omega arith)
reset_cells_lem (suc n) [] parent e f = absurd (omega arith)
reset_cells_lem (suc n) (x ∷ dp) [] e f = absurd (omega arith)

-- Whatever stands in the pooled arrays, if the first is not longer than the second, `getDPState`
-- returns arrays of the size that is asked for, with a 0 in the first cell and -1 in the others.
pub get_dp_state-IsFresh :
    (pooled : DpState) (max : ℕ)
    → IsUsableState pooled
    → Returns (IsFresh (suc max)) (get_dp_state pooled (suc max))
unfolding get_dp_state
get_dp_state-IsFresh pooled max h = Returns->>= (resize-IsResized pooled (suc max) h) λ s p.
    rw
      (
        reset_cells_lem (suc max) s.dp.cells s.parent.cells p.dp p.parent,
        write_of_lt (replicate {A = Option ℕ} (suc max) none) 0 (some 0) (omega arith),
      )
      (returned (record {
        dp = refl;
        parent = refl;
        usable = omega (
          arith,
          p.usable,
          p.dp,
          p.parent,
          length-replicate {A = Option ℕ} max none,
          length-replicate max (negsuc 0),
        );
      }))

pub put_dp_state-IsUsable : (s : DpState) → IsUsableState s → IsUsableState (put_dp_state s)
unfolding put_dp_state
put_dp_state-IsUsable s h = elim (Bool-cases (ltb 100000 (capacity s.dp))) [
  | inl large ↦ rw large (
      omega (
        arith,
        length-replicate {A = Option ℕ} 10000 (some 0),
        length-replicate {A = ℤ} 10000 (pos 0),
      ))
  | inr small ↦ rw small h
]
