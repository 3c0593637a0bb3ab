-- ===== src/RateLimit/Visits.antt =====
-- `checkRateLimit` sees and changes one visitor, wherever the hash puts it.
use native.Mathlib.Nat.{mod-lt}
use Prim.Native.String.{String}
use text.Mathlib.TextEquality.{eq_iff}
use pack_service.Base.{
  ℕ, zero, suc, ◌%◌, ◌^◌, ◌<◌, ◌≡◌, refl, sym, ap, ◌∙◌, inl, inr, Bool, false, List, [], ◌∷◌,
  Option, none, some, arith, if◌then◌else◌, Bool-cases, ℕ_discrete,
}
use pack_service.Base.{
  length, get_elem?, set, replicate, length-replicate, length-set, get_elem?-set_self,
  get_elem?-set_ne, All, returns, Returns, returned, Returns->>=,
}
use pack_service.Base.Int.{ℤ, pos, pos_part, leb_ℤ}
use pack_service.Base.Dict.{◌==◌, string_eq, lookup, put, IsDistinct, lookup-put, put-IsDistinct}
use pack_service.RateLimit.{
  Visitor, Shard, Limiter, shard_index, visit, check_rate_limit, new_sharded, limit,
  user_identifier, user_rate_limit,
}

unfoldable pub find_visitor : String → Option Shard → Option Visitor
find_visitor id none = none
find_visitor id (some shard) = lookup id shard

-- The visitor that a limiter keeps for an identifier.
unfoldable pub visitor_of : Limiter → String → Option Visitor
unfolding find_visitor
visitor_of rl id = find_visitor id (get_elem? rl.shards (shard_index rl id))

pub record IsSound (rl : Limiter) : Type 0 where
  pub shard_count : length rl.shards ≡ rl.num_shards
  pub some_shard : 0 < rl.num_shards
  pub few_shards : rl.num_shards < 2 ^ 32
  pub distinct : All IsDistinct rl.shards

get_elem?-All :
    (P : Shard → Type 0) (xs : List Shard) (i : ℕ)
    → i < length xs
    → All P xs
    → (s : Shard) × (get_elem? xs i ≡ some s) × P s
get_elem?-All P [] i h a = elim h [ ]
get_elem?-All P (x ∷ xs) zero h a = (x, refl, a.0)
get_elem?-All P (x ∷ xs) (suc i) h a = get_elem?-All P xs i (omega arith) a.1

set-All :
    (P : Shard → Type 0) (xs : List Shard) (i : ℕ) (s : Shard) → All P xs → P s → All P (set xs i s)
set-All P [] i s a p = tt
set-All P (x ∷ xs) zero s a p = (p, a.1)
set-All P (x ∷ xs) (suc i) s a p = (a.0, set-All P xs i s a.1 p)

pub shard_index-lt :
    (rl : Limiter) (id : String) → IsSound rl → shard_index rl id < length rl.shards
unfolding shard_index
shard_index-lt rl id s =
    let small : rl.num_shards % 2 ^ 32 ≡ rl.num_shards = omega (arith, s.few_shards) in
    rw (small, s.shard_count) (mod-lt _ s.some_shard)

-- The visitor after a visit: the one written, or the old one.
abbrev pub kept : Option Visitor → Option Visitor → Option Visitor
kept none old = old
kept (some v) old = some v

-- What a check returns and leaves.
pub record IsChecked (rl : Limiter) (id : String) (now : ℕ) (r : Limiter × Bool × ℤ) : Type 0 where
  pub sound : IsSound r.0
  pub same_rate : r.0.rate ≡ rl.rate
  pub same_window : r.0.window ≡ rl.window
  pub allowed : r.1 ≡ (visit rl.rate rl.window now (visitor_of rl id)).1
  pub remaining : r.2 ≡ (visit rl.rate rl.window now (visitor_of rl id)).2
  pub visitors :
      (j : String)
      → visitor_of r.0 j ≡ (
          if id == j
          then kept (visit rl.rate rl.window now (visitor_of rl id)).0 (visitor_of rl id)
          else visitor_of rl j)

module _ (rl : Limiter) (id : String) (now : ℕ) (sound : IsSound rl) (shard : Shard)
    (here : get_elem? rl.shards (shard_index rl id) ≡ some shard)
    (distinct : IsDistinct shard) where
  visitor_here : visitor_of rl id ≡ lookup id shard
  unfolding visitor_of
  visitor_here = rw here

  module _ (v : Visitor) where
    abbrev stored : Limiter
    stored = record rl { shards = set rl.shards (shard_index rl id) (put id v shard) }

    stored-IsSound : IsSound stored
    stored-IsSound = record {
      shard_count = length-set rl.shards (shard_index rl id) (put id v shard) ∙ sound.shard_count;
      some_shard = sound.some_shard;
      few_shards = sound.few_shards;
      distinct =
          set-All IsDistinct rl.shards (shard_index rl id) (put id v shard) sound.distinct
            (put-IsDistinct id v shard distinct);
    }

    visitor_of-stored :
        (j : String) → visitor_of stored j ≡ (if id == j then some v else visitor_of rl j)
    unfolding visitor_of shard_index
    visitor_of-stored j = elim (ℕ_discrete (shard_index rl id) (shard_index rl j)) [
      | yes same ↦
          let after : visitor_of stored j ≡ lookup j (put id v shard) =
            ap
              (λ i.
                find_visitor j (get_elem? (set rl.shards (shard_index rl id) (put id v shard)) i))
              (sym same)
            ∙ ap (find_visitor j) (
                get_elem?-set_self rl.shards (shard_index rl id) (put id v shard)
                  (shard_index-lt rl id sound)) in
          let before : visitor_of rl j ≡ lookup j shard =
            ap (λ i. find_visitor j (get_elem? rl.shards i)) (sym same)
            ∙ ap (find_visitor j) here in
          after ∙ lookup-put id j v shard ∙ rw before
      | no other ↦
          let apart : (id == j) ≡ false =
            ground (arith, eq_iff id j, λ (e : id ≡ j). other (ap (shard_index rl) e)) in
          ap (find_visitor j) (get_elem?-set_ne rl.shards (put id v shard) other) ∙ rw apart
    ]

  check_lem : check_rate_limit rl id now ≡ elim (visit rl.rate rl.window now (lookup id shard)).0 [
    | none ↦ returns (
      rl,
      (visit rl.rate rl.window now (lookup id shard)).1,
      (visit rl.rate rl.window now (lookup id shard)).2,
    )
    | some v ↦ returns (
      stored v,
      (visit rl.rate rl.window now (lookup id shard)).1,
      (visit rl.rate rl.window now (lookup id shard)).2,
    )
  ]
  unfolding check_rate_limit
  check_lem = rw (here, check_rate_limit)

-- In a sound limiter, a check returns and decides by the visitor of its identifier alone, and
-- changes no other visitor: neither the sharding nor the requests of others matter.
pub check_rate_limit-IsChecked :
    (rl : Limiter) (id : String) (now : ℕ)
    → IsSound rl
    → Returns (IsChecked rl id now) (check_rate_limit rl id now)
check_rate_limit-IsChecked rl id now sound =
    let (shard, here, distinct) =
      get_elem?-All IsDistinct rl.shards (shard_index rl id) (shard_index-lt rl id sound)
        sound.distinct in
    let old = visitor_here rl id now sound shard here distinct in
    rw (check_lem rl id now sound shard here distinct)
      (by_write shard here distinct (visit rl.rate rl.window now (lookup id shard)) (rw old))
  where
    unchanged :
        (j : String) → visitor_of rl j ≡ (if id == j then visitor_of rl id else visitor_of rl j)
    unchanged j = elim (Bool-cases (id == j)) [
      | inl same ↦ rw (same, (eq_iff id j).0 same)
      | inr other ↦ rw other
    ]

    by_write :
        (shard : Shard) (here : get_elem? rl.shards (shard_index rl id) ≡ some shard)
        (distinct : IsDistinct shard) (d : Option Visitor × Bool × ℤ)
        → d ≡ visit rl.rate rl.window now (visitor_of rl id)
        → Returns (IsChecked rl id now) (elim d.0 [
          | none ↦ returns (rl, d.1, d.2)
          | some v ↦ returns (stored rl id now sound shard here distinct v, d.1, d.2)
        ])
    by_write shard here distinct (none, allowed, remaining) e = returned (record {
      sound = sound;
      same_rate = refl;
      same_window = refl;
      allowed = ap (λ d. d.1) e;
      remaining = ap (λ d. d.2) e;
      visitors = λ j.
          let w : (visit rl.rate rl.window now (visitor_of rl id)).0 ≡ none =
            sym (ap (λ d. d.0) e) in
          rw w (unchanged j);
    })
    by_write shard here distinct (some v, allowed, remaining) e = returned (record {
      sound = stored-IsSound rl id now sound shard here distinct v;
      same_rate = refl;
      same_window = refl;
      allowed = ap (λ d. d.1) e;
      remaining = ap (λ d. d.2) e;
      visitors = λ j.
          let w : (visit rl.rate rl.window now (visitor_of rl id)).0 ≡ some v =
            sym (ap (λ d. d.0) e) in
          rw w (visitor_of-stored rl id now sound shard here distinct v j);
    })

replicate-All : (n : ℕ) → All IsDistinct (replicate n (let s : Shard = [] in s))
replicate-All zero = tt
replicate-All (suc n) = (tt, replicate-All n)

-- A new limiter has at least one shard, whatever count below 2^32 is asked for, and knows nobody.
pub new_sharded-IsSound :
    (rate : ℤ) (window : ℕ) (num_shards : ℤ)
    → pos_part num_shards < 2 ^ 32
    → IsSound (new_sharded rate window num_shards)
unfolding new_sharded
new_sharded-IsSound rate window num_shards few = elim (Bool-cases (leb_ℤ num_shards (pos 0))) [
  | inl none_given ↦ rw none_given (sound_of 16 (omega arith) (omega arith))
  | inr given ↦ rw given (sound_of (pos_part num_shards) (ground arith) few)
]
  where
    sound_of :
        (n : ℕ)
        → 0 < n
        → n < 2 ^ 32
        → IsSound (record { shards = replicate n []; num_shards = n; rate = rate; window = window })
    sound_of n p q = record {
      shard_count = length-replicate n [];
      some_shard = p;
      few_shards = q;
      distinct = replicate-All n;
    }

-- The middleware for users returns, and keeps a limiter sound.
pub user_rate_limit-IsSound :
    (rl : Limiter) (user : Option String) (ip : String) (now : ℕ)
    → IsSound rl
    → Returns (λ r. IsSound r.0) (user_rate_limit rl user ip now)
unfolding user_rate_limit limit
user_rate_limit-IsSound rl user ip now sound =
    Returns->>= (check_rate_limit-IsChecked rl (user_identifier user ip) now sound)
      λ r c. returned c.sound
