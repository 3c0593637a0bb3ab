-- ===== src/PackSizes/Guard.antt =====
-- A call in the circuit breaker, by whether it was made.
use pack_service.Base.{ℕ, ◌≡◌, ◌≢◌, refl, inl, inr, true, false, arith, Bool-cases}
use pack_service.Breaker.{Config, Breaker, open_state, admit, settle}
use pack_service.PackSizes.{circuit_open, Answer, refused, answered, Reads, Guarded, guarded}

module _ (config : Config) where
  -- A breaker that is not open lets a call through, and stays as it is until the call ends.
  admit_not_open : (b : Breaker) (now : ℕ) → b.state ≢ open_state → admit config b now ≡ (b, true)
  unfolding admit
  admit_not_open b now n = ground arith

  admitted-not-open :
      (b : Breaker) (now : ℕ)
      → (admit config b now).1 ≡ true
      → (admit config b now).0.state ≢ open_state
  unfolding admit
  admitted-not-open b now e = ground arith

  success-not-open :
      (b : Breaker) (now : ℕ)
      → b.state ≢ open_state
      → (settle config b false now).state ≢ open_state
  unfolding settle
  success-not-open b now n = ground arith

module _ {S : Type 0} (config : Config) where
  -- A call that succeeds in the breaker was made, and leaves the breaker closed or half-open.
  pub guarded_answered :
      {A : Type 0} (call : S → S × Answer A) (reads : Reads) (g : Guarded S) (a : A)
      → (guarded config call reads g).1 ≡ answered a
      → ((call g.inner).1 ≡ answered a)
        × ((guarded config call reads g).0.inner ≡ (call g.inner).0)
        × ((guarded config call reads g).0.breaker.state ≢ open_state)
  unfolding guarded
  guarded_answered call reads g a q =
      elim (Bool-cases (admit config g.breaker reads.admitted_at).1) [
        | inl on ↦
            let result : (call g.inner).1 ≡ answered a = rw on at q in
            rw (on, result)
              (
                refl,
                refl,
                success-not-open config _ reads.ended_at (admitted-not-open config g.breaker _ on),
              )
        | inr off ↦
            absurd (let none_made : refused circuit_open ≡ answered a = rw off at q in ground arith)
      ]

  pub guarded_made :
      {A : Type 0} (call : S → S × Answer A) (reads : Reads) (g : Guarded S)
      → g.breaker.state ≢ open_state
      → (guarded config call reads g).1 ≡ (call g.inner).1
  unfolding guarded
  guarded_made call reads g n = rw (admit_not_open config g.breaker reads.admitted_at n) refl
