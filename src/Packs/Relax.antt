-- ===== src/Packs/Relax.antt =====
-- What one round of the outer loop of `calculateCore` does to the arrays.
use pack_service.Base.{
  ℕ, suc, ◌+◌, ◌-◌, ◌≤◌, ◌<◌, ◌≡◌, refl, sym, ◌∙◌, ap, ◌≢◌, ◌⊎◌, inl, inr, true, false, List, [],
  ◌∷◌, Option, none, some, arith, Bool-cases, ℕ_discrete,
}
use pack_service.Base.{
  length, get_or, set, length-set, get_elem?-get_or, get_or-set_self, get_or-set_ne, ◌∈◌, All,
}
use pack_service.Base.{Returns, returned, Returns->>=, Returns-weaken}
use pack_service.Base.Int.{ℤ, pos, negsuc, pos_part, ltb_ℤ}
use pack_service.Base.Machine.{max_int, add_int-pos}
use pack_service.Packs.Selection.{IsPositive, AtMost}
use pack_service.Packs.Pool.{write_of_lt}
use pack_service.Packs.Table.{Table, improves, relax_at, relax, relax_all}

abbrev pub cell : Table → ℕ → Option ℕ
cell t j = get_or t.dp j none

abbrev pub parent_of : Table → ℕ → ℤ
parent_of t j = get_or t.parent j (negsuc 0)

-- The last pack of a cell that holds `d`: a size on offer, from a cell below `bound`.
pub record Last (sizes : List ℤ) (bound : ℕ) (t : Table) (j d : ℕ) : Type 0 where
  pub size : ℕ
  pub before : ℕ
  pub offered : pos size ∈ sizes
  pub positive : 0 < size
  pub fits : size ≤ j
  pub low : j - size < bound
  pub parent : parent_of t j ≡ pos size
  pub source : cell t (j - size) ≡ some before
  pub count : d ≡ suc before

abbrev pub IsTraced : List ℤ → ℕ → Table → Type 0
IsTraced sizes bound t =
    (j d : ℕ) → cell t j ≡ some d → ((j ≡ 0) × (d ≡ 0)) ⊎ Last sizes bound t j d

-- The arrays have room for the indices up to `max`.
pub record HasRoom (max : ℕ) (t : Table) : Type 0 where
  pub dp_length : length t.dp ≡ suc max
  pub parent_length : length t.parent ≡ suc max

module _ (sizes : List ℤ) (max : ℕ) where
  -- `u` is `t` after some of the sizes were tried at index `i`.
  pub record Extends (i : ℕ) (t u : Table) : Type 0 where
    pub room : HasRoom max u
    pub below : (j : ℕ) → j ≤ i → cell u j ≡ cell t j
    pub no_worse : (j k : ℕ) → AtMost (cell t j) k → AtMost (cell u j) k
    pub traced : IsTraced sizes (suc i) t → IsTraced sizes (suc i) u

  -- A pack of size `c` on top of cell `i` is accounted for.
  abbrev pub IsTried : ℕ → Table → ℕ → ℕ → Type 0
  IsTried i u d c = i + c ≤ max → AtMost (cell u (i + c)) (suc d)

  Extends-refl : (i : ℕ) (t : Table) → HasRoom max t → Extends i t t
  Extends-refl i t room = record {
    room = room;
    below = λ j h. refl;
    no_worse = λ j k h. h;
    traced = λ h. h;
  }

  Extends-trans : {i : ℕ} {t u v : Table} → Extends i t u → Extends i u v → Extends i t v
  Extends-trans a b = record {
    room = b.room;
    below = λ j h. b.below j h ∙ a.below j h;
    no_worse = λ j k h. b.no_worse j k (a.no_worse j k h);
    traced = λ h. b.traced (a.traced h);
  }

  -- The two writes of a cell that improves.
  module _ (i c d : ℕ) (t : Table) (room : HasRoom max t) (here : cell t i ≡ some d)
      (on_offer : pos c ∈ sizes) (c_pos : 0 < c) (fits : i + c ≤ max)
      (better : improves (d + 1) (cell t (i + c)) ≡ true) where
    abbrev written : Table
    written = record { dp = set t.dp (i + c) (some (d + 1)); parent = set t.parent (i + c) (pos c) }

    written_self : cell written (i + c) ≡ some (d + 1)
    written_self = get_or-set_self t.dp (i + c) (some (d + 1)) none (omega (arith, room.dp_length))

    written_ne : (j : ℕ) → j ≢ i + c → cell written j ≡ cell t j
    written_ne j h = get_or-set_ne t.dp (i + c) j (some (d + 1)) none h

    written-IsTraced : IsTraced sizes (suc i) t → IsTraced sizes (suc i) written
    written-IsTraced old j e h = elim (ℕ_discrete j (i + c)) [
      | yes p ↦ inr (at_next p)
      | no p ↦ elim (old j e (sym (written_ne j p) ∙ h)) [ inl q ↦ inl q | inr l ↦ inr (kept p l) ]
    ]
      where
        at_next : j ≡ i + c → Last sizes (suc i) written j e
        at_next p = record {
          size = c;
          before = d;
          offered = on_offer;
          positive = c_pos;
          fits = omega arith;
          low = omega arith;
          parent = rw p (
              get_or-set_self t.parent (i + c) (pos c) (negsuc 0)
                (omega (arith, room.parent_length)));
          source = let q : j - c ≡ i = omega arith in rw q (written_ne i (omega arith) ∙ here);
          count = ground (arith, written_self, ap (cell written) p);
        }

        kept : j ≢ i + c → Last sizes (suc i) t j e → Last sizes (suc i) written j e
        kept p l = record {
          size = l.size;
          before = l.before;
          offered = l.offered;
          positive = l.positive;
          fits = l.fits;
          low = l.low;
          parent = get_or-set_ne t.parent (i + c) j (pos c) (negsuc 0) p ∙ l.parent;
          source = written_ne (j - l.size) (omega (arith, l.low)) ∙ l.source;
          count = l.count;
        }

    written-no_worse : (j k : ℕ) → AtMost (cell t j) k → AtMost (cell written j) k
    written-no_worse j k h = elim (ℕ_discrete j (i + c)) [
      | yes p ↦ rw (p, written_self) (ground (arith, ap (cell t) p))
      | no p ↦ rw (written_ne j p) h
    ]

    written-Extends : Extends i t written
    written-Extends = record {
      room = record {
        dp_length = length-set t.dp (i + c) (some (d + 1)) ∙ room.dp_length;
        parent_length = length-set t.parent (i + c) (pos c) ∙ room.parent_length;
      };
      below = λ j h. written_ne j (omega arith);
      no_worse = written-no_worse;
      traced = written-IsTraced;
    }

  relax_at-Extends :
      (i c d : ℕ) (t : Table)
      → HasRoom max t
      → cell t i ≡ some d
      → pos c ∈ sizes
      → 0 < c
      → i + c ≤ max
      → Returns (λ u. Extends i t u × IsTried i u d c) (relax_at (d + 1) (pos c) (pos (i + c)) t)
  unfolding relax_at
  relax_at-Extends i c d t room here on_offer c_pos fits =
      rw (get_elem?-get_or t.dp (i + c) none (omega (arith, room.dp_length)))
        (elim (Bool-cases (improves (d + 1) (cell t (i + c)))) [
          | inl better ↦
              rw
                (
                  better,
                  write_of_lt t.dp (i + c) (some (d + 1)) (omega (arith, room.dp_length)),
                  write_of_lt t.parent (i + c) (pos c) (omega (arith, room.parent_length)),
                )
                (returned (
                  written-Extends i c d t room here on_offer c_pos fits better,
                  λ _. rw (written_self i c d t room here on_offer c_pos fits better) (omega arith),
                ))
          | inr worse ↦
              rw worse (returned (Extends-refl i t room, λ _. kept (cell t (i + c)) worse))
        ])
    where
      kept : (o : Option ℕ) → improves (d + 1) o ≡ false → AtMost o (suc d)
      kept none e = cc
      kept (some n) e = ground arith

  relax-Extends :
      (i c d : ℕ) (t : Table)
      → HasRoom max t
      → cell t i ≡ some d
      → i ≤ max
      → pos c ∈ sizes
      → 0 < c
      → max + c ≤ max_int
      → Returns (λ u. Extends i t u × IsTried i u d c) (relax max i (pos c) t)
  unfolding relax
  relax-Extends i c d t room here i_le on_offer c_pos small =
      rw
        (
          add_int-pos i c (omega arith),
          get_elem?-get_or t.dp i none (omega (arith, room.dp_length)),
          here,
        )
        (elim (Bool-cases (ltb_ℤ (pos max) (pos (i + c)))) [
          | inl past ↦ rw past (returned (Extends-refl i t room, λ h. absurd (ground arith)))
          | inr inside ↦
              rw (inside, add_int-pos i c (omega arith))
                (relax_at-Extends i c d t room here on_offer c_pos (ground arith))
        ])

  pub relax_all-Extends :
      (cs : List ℤ) (i d : ℕ) (t : Table)
      → All (λ z. (z ∈ sizes) × IsPositive z × (max + pos_part z ≤ max_int)) cs
      → HasRoom max t
      → cell t i ≡ some d
      → i ≤ max
      → Returns
          (λ u. Extends i t u × All (λ z. IsTried i u d (pos_part z)) cs)
          (relax_all max i cs t)
  unfolding relax_all
  relax_all-Extends [] i d t _ room here i_le = returned (Extends-refl i t room, tt)
  relax_all-Extends (negsuc _ ∷ cs) i d t ok room here i_le = absurd ok.0.1
  relax_all-Extends (pos c ∷ cs) i d t ok room here i_le =
      Returns->>= (relax-Extends i c d t room here i_le ok.0.0 ok.0.1 ok.0.2) λ u p.
        Returns-weaken
          (relax_all-Extends cs i d u ok.1 p.0.room (p.0.below i (omega arith) ∙ here) i_le)
          λ v q. (Extends-trans p.0 q.0, (λ h. q.0.no_worse (i + c) (suc d) (p.1 h), q.1))
