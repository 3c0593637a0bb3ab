-- ===== src/Packs/Minimum.antt =====
-- The search of `calculateCore` for the least number of items: it finds one, and it is least.
use native.Mathlib.Nat.{mod-lt, div-add-mod}
use pack_service.Base.{
  ℕ, zero, suc, ◌+◌, ◌*◌, ◌/◌, ◌≤◌, ◌<◌, ◌≡◌, refl, ◌∙◌, ap, subst, inl, inr, List, Option, none,
  some, arith, Option-cases, ℕ_discrete, dec_le,
}
use pack_service.Base.{length, get_or, get_elem?-get_or, replicate, ◌∈◌}
use pack_service.Base.{Returns, returned, Returns-weaken}
use pack_service.Base.Int.{ℤ, pos, ltb_ℤ-pos}
use pack_service.Packs.Selection.{IsSelection, sum, AtMost}
use pack_service.Packs.Table.{Table, find_min}
use pack_service.Packs.Relax.{cell}
use pack_service.Packs.Fill.{IsUsable, Inv-least, IsFilled}

-- What the search returns for the cells from `from` up to `stop`.
abbrev IsFound : (ℕ → Option ℕ) → ℕ → ℕ → Option ℕ → Type 0
IsFound f from stop none = (j : ℕ) → from ≤ j → j < stop → f j ≡ none
IsFound f from stop (some m) =
    (from ≤ m) × (m < stop) × ((d : ℕ) × (f m ≡ some d)) × ((j : ℕ) → from ≤ j → j < m → f j ≡ none)

IsFound-extend :
    (f : ℕ → Option ℕ) (from stop : ℕ) (o : Option ℕ)
    → f from ≡ none
    → IsFound f (suc from) stop o
    → IsFound f from stop o
IsFound-extend f from stop none e h =
    λ j lo hi. elim (ℕ_discrete j from) [ yes p ↦ ap f p ∙ e | no p ↦ h j (omega arith) hi ]
IsFound-extend f from stop (some m) e (lo, hi, full, gap) = (
  omega arith,
  hi,
  full,
  λ j j_lo j_hi. elim (ℕ_discrete j from) [ yes p ↦ ap f p ∙ e | no p ↦ gap j (omega arith) j_hi ],
)

find_min-IsFound :
    (rounds stop : ℕ) (dp : List (Option ℕ)) (items : ℕ)
    → items + rounds ≡ stop
    → stop ≤ length dp
    → Returns (IsFound (λ j. get_or dp j none) items stop) (find_min rounds (pos stop) dp items)
unfolding find_min
find_min-IsFound zero stop dp items e h = returned (λ j lo hi. absurd (omega arith))
find_min-IsFound (suc rounds) stop dp items e h =
    rw (ltb_ℤ-pos items stop (omega arith), get_elem?-get_or dp items none (omega arith))
      (elim (Option-cases (get_or dp items none)) [
        | inl empty ↦ rw empty (
            Returns-weaken (find_min-IsFound rounds stop dp (suc items) (omega arith) h)
              λ o. IsFound-extend (λ j. get_or dp j none) items stop o empty)
        | inr (d, full) ↦
            rw full
              (returned (omega arith, omega arith, (d, full), λ j lo hi. absurd (omega arith)))
      ])

AtMost-full : (o : Option ℕ) (k : ℕ) → AtMost o k → (d : ℕ) × (o ≡ some d)
AtMost-full none k h = absurd h
AtMost-full (some d) k h = (d, refl)

-- The least number of items that some choice of packs reaches, and the cell of that number.
pub record IsLeast (sizes : List ℤ) (target : ℕ) (u : Table) (m : ℕ) : Type 0 where
  pub enough : target ≤ m
  pub inside : m < length u.dp
  pub count : ℕ
  pub full : cell u m ≡ some count
  pub fewest_items : (l : List ℕ) → IsSelection sizes l → target ≤ sum l → m ≤ sum l
  pub fewest_packs : (l : List ℕ) → IsSelection sizes l → sum l ≡ m → count ≤ length l

module _ (sizes : List ℤ) (max target smallest : ℕ) (usable : IsUsable sizes max sizes)
    (smallest_pos : 0 < smallest) (on_offer : pos smallest ∈ sizes)
    (reach : target + smallest ≡ suc max) where
  -- The multiple of the smallest size that lies in the range searched.
  abbrev times : ℕ
  times = max / smallest

  sum-replicate : (n c : ℕ) → sum (replicate n c) ≡ n * c
  unfolding sum
  sum-replicate zero c = omega arith
  sum-replicate (suc n) c = grind (arith, sum-replicate n c)

  replicate-IsSelection : (n : ℕ) → IsSelection sizes (replicate n smallest)
  replicate-IsSelection zero = tt
  replicate-IsSelection (suc n) = (on_offer, replicate-IsSelection n)

  times_range : (target ≤ times * smallest) × (times * smallest ≤ max)
  times_range = (
    omega (arith, div-add-mod max smallest, mod-lt max smallest_pos),
    omega (arith, div-add-mod max smallest),
  )

  some_full :
      (u : Table)
      → IsFilled sizes max usable target u
      → (j : ℕ) × (target ≤ j) × (j < suc max) × (d : ℕ) × (cell u j ≡ some d)
  some_full u f = elim f.over [
    | inl e ↦
        let tiling = replicate times smallest in
        let total : sum tiling ≡ times * smallest = sum-replicate times smallest in
        let (d, full) = AtMost-full (cell u (sum tiling)) (length tiling) (
          Inv-least sizes max usable f.inv tiling (replicate-IsSelection times)
            (omega (arith, times_range)) (omega (arith, times_range))) in
        (sum tiling, omega (arith, times_range), omega (arith, times_range), d, full)
    | inr (i, e, enough, d, full) ↦ (i, enough, omega (arith, f.bound), d, full)
  ]

  found_below :
      (u : Table) (f : IsFilled sizes max usable target u) (m : ℕ)
      → m < suc max
      → ((j : ℕ) → target ≤ j → j < m → cell u j ≡ none)
      → m < f.upto
  found_below u f m hi gap = elim f.over [
    | inl e ↦ omega arith
    | inr (i, e, enough, d, full) ↦ elim (dec_le m i) [
      | yes p ↦ omega arith
      | no p ↦ absurd (ground (arith, gap i enough (omega arith)))
    ]
  ]

  IsFound-IsLeast :
      (u : Table) (f : IsFilled sizes max usable target u) (o : Option ℕ)
      → IsFound (cell u) target (suc max) o
      → (m : ℕ) × (o ≡ some m) × IsLeast sizes target u m
  IsFound-IsLeast u f none gap =
      let (j, lo, hi, d, full) = some_full u f in absurd (ground (arith, gap j lo hi))
  IsFound-IsLeast u f (some m) (enough, hi, (d, full), gap) = (
    m,
    refl,
    record {
      enough = enough;
      inside = omega (arith, f.inv.room.dp_length);
      count = d;
      full = full;
      fewest_items = λ l sel lo. elim (dec_le m (sum l)) [
        | yes p ↦ p
        | no p ↦ absurd (
            subst (λ o. AtMost o (length l)) (gap (sum l) lo (omega arith))
              (least l sel (omega arith)))
      ];
      fewest_packs = λ l sel e.
          subst (λ o. AtMost o (length l)) (ap (cell u) e ∙ full) (least l sel (omega arith));
    },
  )
    where
      least : (l : List ℕ) → IsSelection sizes l → sum l ≤ m → AtMost (cell u (sum l)) (length l)
      least l sel le =
          Inv-least sizes max usable f.inv l sel (omega arith)
            (omega (arith, found_below u f m hi gap))

  -- The search on a filled table returns the least number of items.
  pub find_min-IsLeast :
      (u : Table)
      → IsFilled sizes max usable target u
      → Returns
          (λ o. (m : ℕ) × (o ≡ some m) × IsLeast sizes target u m)
          (find_min smallest (pos (suc max)) u.dp target)
  find_min-IsLeast u f =
      Returns-weaken
        (find_min-IsFound smallest (suc max) u.dp target reach
          (omega (arith, f.inv.room.dp_length)))
        (IsFound-IsLeast u f)
