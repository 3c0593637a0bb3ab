-- ===== src/RateLimit/Cleanup.antt =====
-- `cleanupExpired`: it forgets visitors, and no later decision shows it.
use Prim.Native.String.{String}
use pack_service.Base.{
  ℕ, zero, suc, ◌+◌, ◌*◌, ◌≤◌, ◌≡◌, refl, ◌∙◌, inl, inr, Bool, true, List, [], ◌∷◌, map, Option,
  none, some, arith, ltb, if◌then◌else◌, Bool-cases, Option-cases,
}
use pack_service.Base.{get_elem?, length-map, All}
use pack_service.Base.Dict.{
  string_eq, lookup, remove_if, IsDistinct, lookup-remove_if, remove_if-IsDistinct,
}
use pack_service.RateLimit.{Visitor, Shard, Limiter, shard_index, visit, cleanup_expired}
use pack_service.RateLimit.Visits.{kept, visitor_of, find_visitor, IsSound}

module _ (rl : Limiter) (now : ℕ) where
  abbrev expired : Visitor → Bool
  expired v = ltb (v.last_reset + rl.window * 2) now

  abbrev pub survivor : Option Visitor → Option Visitor
  survivor none = none
  survivor (some v) = if expired v then none else some v

  map-All : (xs : List Shard) → All IsDistinct xs → All IsDistinct (map (remove_if expired) xs)
  map-All [] a = tt
  map-All (x ∷ xs) a = (remove_if-IsDistinct expired x a.0, map-All xs a.1)

  pub cleanup_expired-IsSound : IsSound rl → IsSound (cleanup_expired rl now)
  unfolding cleanup_expired
  cleanup_expired-IsSound s = record {
    shard_count = length-map rl.shards (remove_if expired) ∙ s.shard_count;
    some_shard = s.some_shard;
    few_shards = s.few_shards;
    distinct = map-All rl.shards s.distinct;
  }

  find_visitor-map :
      (id : String) (xs : List Shard) (i : ℕ)
      → All IsDistinct xs
      → find_visitor id (get_elem? (map (remove_if expired) xs) i)
        ≡ survivor (find_visitor id (get_elem? xs i))
  unfolding find_visitor
  find_visitor-map id [] i a = refl
  find_visitor-map id (x ∷ xs) zero a = elim (Option-cases (lookup id x)) [
    | inl e ↦ lookup-remove_if expired id x a.0 ∙ rw e
    | inr (v, e) ↦ lookup-remove_if expired id x a.0 ∙ rw e
  ]
  find_visitor-map id (x ∷ xs) (suc i) a = find_visitor-map id xs i a.1

  pub visitor_of-cleanup_expired :
      (id : String)
      → IsSound rl
      → visitor_of (cleanup_expired rl now) id ≡ survivor (visitor_of rl id)
  unfolding visitor_of cleanup_expired shard_index
  visitor_of-cleanup_expired id s = find_visitor-map id rl.shards (shard_index rl id) s.distinct

  visit-expired :
      (v : Visitor) (later : ℕ)
      → expired v ≡ true
      → now ≤ later
      → visit rl.rate rl.window later none ≡ visit rl.rate rl.window later (some v)
  unfolding visit
  visit-expired v later old le =
      let starts : ltb (v.last_reset + rl.window) later ≡ true = ground arith in rw starts

  visit-none_kept :
      (later : ℕ) (a b : Option Visitor)
      → kept (visit rl.rate rl.window later none).0 a
        ≡ kept (visit rl.rate rl.window later none).0 b
  unfolding visit
  visit-none_kept later a b = refl

  -- A cleanup of a sound limiter changes no decision: a request at any later time is answered as
  -- without it, and leaves the same visitor behind.
  pub cleanup_transparent :
      (id : String) (later : ℕ)
      → IsSound rl
      → now ≤ later
      → let cleaned = visitor_of (cleanup_expired rl now) id in
        let before = visit rl.rate rl.window later (visitor_of rl id) in
        let after = visit rl.rate rl.window later cleaned in
        (after ≡ before) × (kept after.0 cleaned ≡ kept before.0 (visitor_of rl id))
  cleanup_transparent id later s le =
      rw (visitor_of-cleanup_expired id s) (by_visitor (visitor_of rl id))
    where
      by_visitor :
          (o : Option Visitor)
          → let before = visit rl.rate rl.window later o in
            let after = visit rl.rate rl.window later (survivor o) in
            (after ≡ before) × (kept after.0 (survivor o) ≡ kept before.0 o)
      by_visitor none = (refl, refl)
      by_visitor (some v) = elim (Bool-cases (expired v)) [
        | inl old ↦
            rw (old, ← visit-expired v later old le) (refl, visit-none_kept later none (some v))
        | inr recent ↦ rw recent (refl, refl)
      ]
