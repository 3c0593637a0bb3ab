-- ===== src/Packs/Optimal.antt =====
-- `calculateCore` returns the best choice of packs.
use mathlib.Core.List.{reverse-cons}
use pack_service.Base.{
  ℕ, zero, suc, ◌+◌, ◌-◌, ◌*◌, ◌≤◌, ◌<◌, ◌≡◌, refl, ap, ◌∙◌, inl, inr, List, [], ◌∷◌, ◌++◌, Option,
  none, some, arith, reverse, Bool-cases, leb_of_le,
}
use pack_service.Base.{length, length-replicate, get_or-replicate, ◌∈◌, All}
use pack_service.Base.{returns, Returns, returned, Returns->>=}
use pack_service.Base.Int.{ℤ, pos, negsuc, pos_part, leb_ℤ}
use pack_service.Base.Machine.{add_int, max_int, add_int-pos, sub_int-pos}
use pack_service.Packs.{PackResult}
use pack_service.Packs.Selection.{IsPositive, IsSelection, sum, item_count, pack_count, IsBest}
use pack_service.Packs.Table.{DpState, Table}
use pack_service.Packs.Breakdown.{small_order, small_order_from}
use pack_service.Packs.Calculator.{calculate_core, pooled_core, solve, last_size, max_items}
use pack_service.Packs.Pool.{
  IsUsableState, fresh_dp, fresh_parent, get_dp_state-IsFresh, put_dp_state-IsUsable,
}
use pack_service.Packs.Relax.{cell, HasRoom}
use pack_service.Packs.Fill.{IsUsable, All-lookup, Inv, fill-IsFilled}
use pack_service.Packs.Minimum.{IsLeast, find_min-IsLeast}
use pack_service.Packs.Counting.{IsBuilt, build_result-IsBuilt}

-- The small orders, where one pack is enough.
module _ (target smallest : ℕ) (sizes : List ℤ) (target_pos : 0 < target)
    (small : target ≤ smallest) where
  last-reverse :
      (zs : List ℤ) (z : ℤ) → last_size zs ≡ returns z → (rest : List ℤ) × (reverse zs ≡ z ∷ rest)
  unfolding last_size
  last-reverse [] z e = absurd (ground arith)
  last-reverse (x ∷ []) z e = ([], ground arith)
  last-reverse (x ∷ y ∷ zs) z e =
      let (rest, back) = last-reverse (y ∷ zs) z e in
      (rest ++ x ∷ [], reverse-cons x (y ∷ zs) ∙ ap (λ l. l ++ x ∷ []) back)

  small_order-IsBest :
      last_size sizes ≡ returns (pos smallest)
      → pos smallest ∈ sizes
      → All (λ z. smallest ≤ pos_part z) sizes
      → IsBest sizes target (small_order target sizes (pos smallest))
  unfolding small_order small_order_from sum item_count pack_count
  small_order-IsBest last on_offer least =
      let (rest, back) = last-reverse sizes (pos smallest) last in
      rw (back, small_order_from, leb_of_le (target + 0) (smallest + 0) (omega arith))
        (record {
          ordered = refl;
          total = ap pos (omega arith);
          enough = omega arith;
          lines = ((on_offer, omega arith), tt);
          fewest_items = λ l sel lo. least_sum l sel lo;
          fewest_packs = λ l sel e. one_at_least l (omega arith);
        })
    where
      least_sum : (l : List ℕ) → IsSelection sizes l → target ≤ sum l → smallest * 1 + 0 ≤ sum l
      least_sum [] sel lo = absurd (omega arith)
      least_sum (c ∷ l) sel lo =
          omega (arith, All-lookup (λ z. smallest ≤ pos_part z) (pos c) sizes least sel.0)

      one_at_least : (l : List ℕ) → 0 < sum l → 1 + 0 ≤ length l
      one_at_least [] h = absurd (omega arith)
      one_at_least (c ∷ l) h = omega arith

-- The sizes as `calculateCore` gets them: positive, with the smallest one last.
pub record IsMenu (sizes : List ℤ) (smallest : ℕ) : Type 0 where
  pub last : last_size sizes ≡ returns (pos smallest)
  pub on_offer : pos smallest ∈ sizes
  pub positive : All IsPositive sizes
  pub least : All (λ z. smallest ≤ pos_part z) sizes

-- No index that the loops form leaves the range of `int`.
abbrev pub InRange : ℕ → ℕ → List ℤ → Type 0
InRange target smallest sizes = All (λ z. target + smallest + pos_part z ≤ max_int) sizes

module _ (sizes : List ℤ) (target smallest max : ℕ) (menu : IsMenu sizes smallest)
    (range : InRange target smallest sizes) (target_pos : 0 < target)
    (reach : target + smallest ≡ suc max) where
  usable_from :
      (zs : List ℤ)
      → All IsPositive zs
      → InRange target smallest zs
      → ((z : ℤ) → z ∈ zs → z ∈ sizes)
      → IsUsable sizes max zs
  usable_from [] p r sub = tt
  usable_from (z ∷ zs) p r sub =
      ((sub z (inl refl), p.0, omega arith), usable_from zs p.1 r.1 (λ y m. sub y (inr m)))

  usable : IsUsable sizes max sizes
  usable = usable_from sizes menu.positive range (λ z m. m)

  smallest_pos : 0 < smallest
  smallest_pos = All-lookup IsPositive (pos smallest) sizes menu.positive menu.on_offer

  in_range : target + smallest + smallest ≤ max_int
  in_range =
      All-lookup (λ z. target + smallest + pos_part z ≤ max_int) (pos smallest) sizes range
        menu.on_offer

  abbrev start : Table
  start = record { dp = fresh_dp (suc max); parent = fresh_parent (suc max) }

  start_cell : (j d : ℕ) → cell start j ≡ some d → (j ≡ 0) × (d ≡ 0)
  start_cell zero d e = (refl, ground arith)
  start_cell (suc j) d e = absurd (ground (arith, get_or-replicate {A = Option ℕ} max j none))

  start-Inv : Inv sizes max usable 0 start
  start-Inv = record {
    room = record {
      dp_length = ap suc (length-replicate {A = Option ℕ} max none);
      parent_length = ap suc (length-replicate max (negsuc 0));
    };
    start = refl;
    relaxed = λ j c k lt. absurd (omega arith);
    traced = λ j d e. inl (start_cell j d e);
  }

  -- What a run of `solve` leaves: arrays of the same length, and the best result.
  abbrev IsSolved : Table × PackResult → Type 0
  IsSolved r = HasRoom max r.0 × IsBest sizes target r.1

  IsBuilt-IsBest :
      (u : Table) (m : ℕ) (r : PackResult) (least : IsLeast sizes target u m)
      → IsBuilt sizes target m least.count r
      → IsBest sizes target r
  IsBuilt-IsBest u m r least built = record {
    ordered = built.ordered;
    total = rw built.items built.total;
    enough = omega (arith, built.items, least.enough);
    lines = built.lines;
    fewest_items = λ l sel lo. omega (arith, built.items, least.fewest_items l sel lo);
    fewest_packs =
        λ l sel e. omega (arith, built.packs, least.fewest_packs l sel (e ∙ built.items));
  }

  solve-IsSolved : Returns IsSolved (solve max target sizes (pos smallest) start)
  unfolding solve
  solve-IsSolved =
      Returns->>=
        (fill-IsFilled sizes max usable (max + 1) target 0 (pos smallest) start (omega arith)
          start-Inv)
        λ u f.
          let rounds : max + 1 - target ≡ smallest = omega arith in
          rw (rounds, add_int-pos target smallest (omega (arith, in_range)), reach)
            (Returns->>=
              (find_min-IsLeast sizes max target smallest usable smallest_pos menu.on_offer reach u
                f)
              λ o q.
                let (m, found, least) = q in
                rw found (
                  Returns->>=
                    (build_result-IsBuilt sizes f.upto target m least.count u f.inv.traced
                      (omega (arith, least.inside, f.inv.room.dp_length, f.inv.room.parent_length))
                      (omega (arith, least.inside, f.inv.room.dp_length, in_range)) least.full)
                    λ r built. returned (f.inv.room, IsBuilt-IsBest u m r least built)))

  -- What a run of `calculateCore` leaves: a state for the pool, and the best result.
  abbrev pub IsDone : DpState × PackResult → Type 0
  IsDone r = IsUsableState r.0 × IsBest sizes target r.1

  pooled_core-IsDone :
      (pooled : DpState)
      → IsUsableState pooled
      → Returns IsDone (pooled_core pooled (pos (suc max)) target sizes (pos smallest))
  unfolding pooled_core
  pooled_core-IsDone pooled h = Returns->>= (get_dp_state-IsFresh pooled max h) λ s p.
      let one_less : suc max - 1 ≡ max = omega arith in
      rw (one_less, p.dp, p.parent)
        (Returns->>= solve-IsSolved λ r q. returned (
          put_dp_state-IsUsable _ (
              omega (
                arith,
                p.usable,
                ap length p.dp,
                ap length p.parent,
                q.0.dp_length,
                q.0.parent_length,
                length-replicate {A = Option ℕ} max none,
                length-replicate max (negsuc 0),
              )),
          q.1,
        ))

  -- The length that `calculateCore` asks for.
  max_items_lem : add_int (max_items target (pos smallest)) (pos 1) ≡ pos (suc max)
  max_items_lem =
      rw
        (
          add_int-pos target smallest (omega (arith, in_range)),
          sub_int-pos (target + smallest) 1 (omega (arith, in_range)) (omega arith),
          add_int-pos (target + smallest - 1) 1 (omega (arith, in_range)),
        )
        (ap pos (omega arith))

-- For a target of at least 1, positive sizes with the smallest one last, and sums of the target,
-- the smallest size and any size that are an `int`: `calculateCore` returns (it does not panic, and
-- its loops end), with the best choice of packs and a state that the pool can hand out again.
pub calculate_core-IsBest :
    (pooled : DpState) (target smallest : ℕ) (sizes : List ℤ)
    → IsUsableState pooled
    → 0 < target
    → IsMenu sizes smallest
    → InRange target smallest sizes
    → Returns
        (λ r. IsUsableState r.0 × IsBest sizes target r.1)
        (calculate_core pooled target sizes (pos smallest))
unfolding calculate_core
calculate_core-IsBest pooled target smallest [] usable target_pos menu range =
    absurd (menu.on_offer)
calculate_core-IsBest pooled target smallest (z ∷ zs) usable target_pos menu range =
    elim (Bool-cases (leb_ℤ (pos target) (pos smallest))) [
      | inl small ↦ rw small (
          returned (
            usable,
            small_order-IsBest target smallest (z ∷ zs) target_pos (ground arith) menu.last
                menu.on_offer menu.least,
          ))
      | inr large ↦
          let max = target + smallest - 1 in
          let reach : target + smallest ≡ suc max = omega arith in
          rw (large, max_items_lem (z ∷ zs) target smallest max menu range target_pos reach)
            (pooled_core-IsDone (z ∷ zs) target smallest max menu range target_pos reach pooled
              usable)
    ]
