-- ===== src/Breaker/Invariant.antt =====
-- What holds of the circuit breaker between two critical sections.
use pack_service.Base.{ℕ, ◌<◌, ◌≡◌, Bool, arith}
use pack_service.Breaker.{Config, Breaker, closed, half_open, new, admit, settle}

module _ (config : Config) where
  open config use {failure_threshold, success_threshold, timeout}

  -- A closed breaker has counted fewer failures than their threshold and no successes, and a
  -- half-open one fewer successes than their threshold.
  pub record Inv (b : Breaker) : Type 0 where
    pub closed_counts : b.state ≡ closed → b.failure_count < failure_threshold
    pub closed_fresh : b.state ≡ closed → b.success_count ≡ 0
    pub half_open_counts : b.state ≡ half_open → b.success_count < success_threshold

  module _ (failures : 0 < failure_threshold) (successes : 0 < success_threshold) where
    pub new-Inv : Inv new
    unfolding new
    new-Inv = ground arith

    pub admit-Inv : (b : Breaker) (now : ℕ) → Inv b → Inv (admit config b now).0
    unfolding admit
    admit-Inv b now h = ground arith

    pub settle-Inv :
        (b : Breaker) (failed : Bool) (now : ℕ) → Inv b → Inv (settle config b failed now)
    unfolding settle
    settle-Inv b failed now h = ground arith
