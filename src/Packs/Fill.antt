-- ===== src/Packs/Fill.antt =====
-- The outer loop of `calculateCore`: it never panics, and when it is left, early or at its end, the
-- cells that it has passed hold the fewest packs for their index.
use pack_service.Base.{
  ℕ, zero, suc, ◌+◌, ◌-◌, ◌≤◌, ◌<◌, ◌≡◌, refl, sym, ◌∙◌, ap, subst, ℕ_discrete, ◌⊎◌, inl, inr, Bool,
  true, false, List, [], ◌∷◌, Option, none, some, arith, leb, Bool-cases, Option-cases,
}
use pack_service.Base.{length, get_or, get_elem?-get_or, ◌∈◌, All}
use pack_service.Base.{returns, Returns, returned, Returns->>=}
use pack_service.Base.Int.{ℤ, pos, pos_part, ltb_ℤ}
use pack_service.Base.Machine.{add_int, max_int}
use pack_service.Packs.Selection.{IsPositive, IsSelection, sum, AtMost}
use pack_service.Packs.Table.{Table, beats, has_better, exits, round, fill}
use pack_service.Packs.Relax.{cell, IsTraced, Last, HasRoom, Extends, IsTried, relax_all-Extends}

has_better-Returns :
    (rounds j : ℕ) (limit : ℤ) (dp : List (Option ℕ)) (d : ℕ)
    → j + rounds ≤ length dp
    → Returns (λ _. Unit {0}) (has_better rounds j limit dp d)
unfolding has_better
has_better-Returns zero j limit dp d h = returned tt
has_better-Returns (suc rounds) j limit dp d h =
    rw (get_elem?-get_or dp j none (omega arith)) (elim (Bool-cases (ltb_ℤ (pos j) limit)) [
      | inr past ↦ rw past (returned tt)
      | inl inside ↦ rw inside (elim (Bool-cases (beats (get_or dp j none) d)) [
        | inl found ↦ rw found (returned tt)
        | inr worse ↦ rw worse (has_better-Returns rounds (suc j) limit dp d (omega arith))
      ])
    ])

-- The sizes are positive, and no sum that the loops form leaves the range of `int`.
abbrev pub IsUsable : List ℤ → ℕ → List ℤ → Type 0
IsUsable sizes max = All (λ z. (z ∈ sizes) × IsPositive z × (max + pos_part z ≤ max_int))

pub All-lookup : (P : ℤ → Type 0) (z : ℤ) (zs : List ℤ) → All P zs → z ∈ zs → P z
All-lookup P z (x ∷ zs) h (inl e) = subst P (sym e) h.0
All-lookup P z (x ∷ zs) h (inr m) = All-lookup P z zs h.1 m
All-lookup P z [] h m = absurd m

AtMost-mono : (o : Option ℕ) (a b : ℕ) → a ≤ b → AtMost o a → AtMost o b
AtMost-mono none a b h k = k
AtMost-mono (some n) a b h k = omega arith

module _ (sizes : List ℤ) (max : ℕ) (usable : IsUsable sizes max sizes) where
  -- Before index `i` is visited.
  pub record Inv (i : ℕ) (t : Table) : Type 0 where
    pub room : HasRoom max t
    pub start : cell t 0 ≡ some 0
    pub relaxed :
        (j c k : ℕ)
        → j < i
        → pos c ∈ sizes
        → j + c ≤ max
        → AtMost (cell t j) k
        → AtMost (cell t (j + c)) (suc k)
    pub traced : IsTraced sizes i t

  -- Every choice of packs that ends at a cell already fed is matched by that cell.
  pub Inv-least :
      {i : ℕ} {t : Table}
      → Inv i t
      → (chosen : List ℕ) → IsSelection sizes chosen
      → sum chosen ≤ max
      → sum chosen ≤ i
      → AtMost (cell t (sum chosen)) (length chosen)
  unfolding sum
  Inv-least inv [] _ h k = rw inv.start (omega arith)
  Inv-least {i} {t} inv (c ∷ chosen) sel h k =
      let c_pos : 0 < c = (All-lookup _ (pos c) sizes usable sel.0).1 in
      let e : c + sum chosen ≡ sum chosen + c = omega arith in
      rw e (
        inv.relaxed (sum chosen) c (length chosen) (omega arith) sel.0 (omega arith)
          (Inv-least inv chosen sel.1 (omega arith) (omega arith)))

  Last-up : {i j d : ℕ} {t : Table} → Last sizes i t j d → Last sizes (suc i) t j d
  Last-up l = record {
    size = l.size;
    before = l.before;
    offered = l.offered;
    positive = l.positive;
    fits = l.fits;
    low = omega (arith, l.low);
    parent = l.parent;
    source = l.source;
    count = l.count;
  }

  IsTraced-up : {i : ℕ} {t : Table} → IsTraced sizes i t → IsTraced sizes (suc i) t
  IsTraced-up h j d e = elim (h j d e) [ inl z ↦ inl z | inr l ↦ inr (Last-up l) ]

  -- Index `i` holds nothing: there is nothing to feed.
  Inv-skip : {i : ℕ} {t : Table} → Inv i t → cell t i ≡ none → Inv (suc i) t
  Inv-skip {i} {t} inv e = record {
    room = inv.room;
    start = inv.start;
    relaxed = λ j c k lt m fits h. elim (ℕ_discrete j i) [
      | yes p ↦ absurd (ground (arith, ap (cell t) p))
      | no p ↦ inv.relaxed j c k (omega arith) m fits h
    ];
    traced = IsTraced-up inv.traced;
  }

  Inv-Extends :
      {i d : ℕ} {t u : Table}
      → Inv i t
      → cell t i ≡ some d
      → Extends sizes max i t u
      → All (λ z. IsTried sizes max i u d (pos_part z)) sizes
      → Inv (suc i) u
  Inv-Extends {i} {d} {t} {u} inv e ext tried = record {
    room = ext.room;
    start = ext.below 0 (omega arith) ∙ inv.start;
    relaxed = λ j c k lt m fits h. elim (ℕ_discrete j i) [
      | yes p ↦
          let d-le : d ≤ k =
            subst (λ o. AtMost o k) (ap (cell u) p ∙ ext.below i (omega arith) ∙ e) h in
          rw p (
            AtMost-mono (cell u (i + c)) (suc d) (suc k) (omega arith)
              (All-lookup _ (pos c) sizes tried m (omega arith)))
      | no p ↦ ext.no_worse (j + c) (suc k) (
          inv.relaxed j c k (omega arith) m fits
            (subst (λ o. AtMost o k) (ext.below j (omega arith)) h))
    ];
    traced = ext.traced (IsTraced-up inv.traced);
  }

  -- The loop is over: every index was visited, or the last one visited holds enough items.
  pub record IsFilled (target : ℕ) (u : Table) : Type 0 where
    pub upto : ℕ
    pub bound : upto ≤ suc max
    pub inv : Inv upto u
    pub over :
        (upto ≡ suc max) ⊎ ((i : ℕ) × (upto ≡ suc i) × (target ≤ i) × (d : ℕ) × (cell u i ≡ some d))

  abbrev Stopped : ℕ → ℕ → Table → Type 0
  Stopped target i u = (target ≤ i) × (d : ℕ) × (cell u i ≡ some d)

  exits-Returns :
      (target i : ℕ) (smallest : ℤ) (t : Table)
      → HasRoom max t
      → i ≤ max
      → Returns (λ b. b ≡ true → Stopped target i t) (exits max target smallest i t)
  unfolding exits
  exits-Returns target i smallest t room i_le = elim (Option-cases (cell t i)) [
    | inl e ↦
        rw (get_elem?-get_or t.dp i none (omega (arith, room.dp_length)), e)
          (returned (λ h. absurd (ground arith)))
    | inr (d, e) ↦
        rw (get_elem?-get_or t.dp i none (omega (arith, room.dp_length)), e)
          (elim (Bool-cases (leb target i)) [
            | inr early ↦ rw early (returned (λ h. absurd (ground arith)))
            | inl enough ↦ rw enough (
                Returns->>=
                  (has_better-Returns (max - i) (i + 1) (add_int (pos i) smallest) t.dp d
                    (omega (arith, room.dp_length)))
                  λ b _. returned (λ _. (ground arith, d, refl)))
          ])
  ]

  round-Returns :
      (target i : ℕ) (smallest : ℤ) (t : Table)
      → Inv i t
      → i ≤ max
      → Returns
          (λ r. Inv (suc i) r.0 × (r.1 ≡ true → Stopped target i r.0))
          (round max target sizes smallest i t)
  unfolding round
  round-Returns target i smallest t inv i_le = elim (Option-cases (cell t i)) [
    | inl e ↦
        rw (get_elem?-get_or t.dp i none (omega (arith, inv.room.dp_length)), e)
          (returned (Inv-skip inv e, λ h. absurd (ground arith)))
    | inr (d, e) ↦
        rw (get_elem?-get_or t.dp i none (omega (arith, inv.room.dp_length)), e)
          (Returns->>= (relax_all-Extends sizes max sizes i d t usable inv.room e i_le) λ u p.
            Returns->>= (exits-Returns target i smallest u p.0.room i_le)
              λ b q. returned (Inv-Extends inv e p.0 p.1, q))
  ]

  fill_next :
      (rounds target i : ℕ) (smallest : ℤ)
      → i ≤ max
      → ((u : Table)
          → Inv (suc i) u
          → Returns (IsFilled target) (fill rounds max target sizes smallest (suc i) u))
      → (r : Table × Bool) → Inv (suc i) r.0 × (r.1 ≡ true → Stopped target i r.0)
      → Returns (IsFilled target) (elim r.1 [
        | true ↦ returns r.0
        | false ↦ fill rounds max target sizes smallest (suc i) r.0
      ])
  fill_next rounds target i smallest i_le rest (u, true) (inv, stop) =
      let (enough, d, full) = stop refl in
      returned (record {
        upto = suc i;
        bound = omega arith;
        inv = inv;
        over = inr (i, refl, enough, d, full);
      })
  fill_next rounds target i smallest i_le rest (u, false) (inv, _) = rest u inv

  pub fill-IsFilled :
      (rounds target i : ℕ) (smallest : ℤ) (t : Table)
      → i + rounds ≡ suc max
      → Inv i t
      → Returns (IsFilled target) (fill rounds max target sizes smallest i t)
  unfolding fill
  fill-IsFilled zero target i smallest t e inv =
      returned (record { upto = i; bound = omega arith; inv = inv; over = inl (omega arith) })
  fill-IsFilled (suc rounds) target i smallest t e inv =
      Returns->>= (round-Returns target i smallest t inv (omega arith)) (
        fill_next rounds target i smallest (omega arith)
          λ u. fill-IsFilled rounds target (suc i) smallest u (omega arith))
