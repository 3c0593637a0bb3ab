-- ===== src/Breaker.antt =====
-- internal/circuitbreaker/circuitbreaker.go: the circuit breaker around the calls to the database.
-- A call of `Execute` is two critical sections with the protected function between them, so the
-- model has one operation for each section (`admit` and `settle`), and runs them in sequence
-- (`execute`) or interleaved (`Breaker.Interleaving`).
-- Times are nanoseconds on the monotonic clock, and counters are unbounded naturals: an `int` would
-- have to count 2^63 failures to wrap.
pub mod Invariant
pub mod Sequences
pub mod Interleaving
mod Examples
use pack_service.Base.{ℕ, ◌+◌, Bool, true, false, Option, none, some, ltb, leb, if◌then◌else◌}
use Prim.Native.String.{String}

pub data State : Type 0 where
  closed open_state half_open : State

-- `State.String`
pub to_string : State → String
to_string closed = "closed"
to_string open_state = "open"
to_string half_open = "half-open"

-- `Config`; its `Name` is only logged.
pub record Config : Type 0 where
  pub failure_threshold : ℕ
  pub success_threshold : ℕ
  pub timeout : ℕ

-- `DefaultConfig`
abbrev pub default_config : Config
default_config = record { failure_threshold = 5; success_threshold = 2; timeout = 30_000_000_000 }

-- `CircuitBreaker`, with its configuration as a parameter of the operations.
pub record Breaker : Type 0 where
  pub state : State
  pub failure_count : ℕ
  pub success_count : ℕ
  pub last_failure_time : ℕ

-- `New`: the zero time stands at 0.
unfoldable pub new : Breaker
new = record { state = closed; failure_count = 0; success_count = 0; last_failure_time = 0 }

module _ (config : Config) where
  open config use {failure_threshold, success_threshold, timeout}

  -- The first critical section of `Execute`, when the breaker is open: whether the call may go on.
  admit_open : Breaker → ℕ → Breaker × Bool
  admit_open b now =
      if leb (b.last_failure_time + timeout) now
      then (record b { state = half_open; success_count = 0 }, true)
      else (b, false)

  admit_in : State → Breaker → ℕ → Breaker × Bool
  admit_in open_state b now = admit_open b now
  admit_in _ b now = (b, true)

  unfoldable pub admit : Breaker → ℕ → Breaker × Bool
  unfolding admit_open admit_in
  admit b now = admit_in b.state b now

  -- The `switch` of `onFailure`
  failed_in : State → Breaker → Breaker
  failed_in closed b =
      if leb failure_threshold b.failure_count then record b { state = open_state } else b
  failed_in half_open b = record b { state = open_state; failure_count = failure_threshold }
  failed_in open_state b = b

  unfoldable pub on_failure : Breaker → ℕ → Breaker
  unfolding failed_in
  on_failure b now =
      failed_in b.state (record b { failure_count = b.failure_count + 1; last_failure_time = now })

  -- The `switch` of `onSuccess`
  succeeded_in : State → Breaker → Breaker
  succeeded_in half_open b =
      let b' : Breaker = record b { success_count = b.success_count + 1 } in
      if leb success_threshold b'.success_count
      then record b' { state = closed; success_count = 0 }
      else b'
  succeeded_in closed b = record b { success_count = 0 }
  succeeded_in open_state b = b

  unfoldable pub on_success : Breaker → Breaker
  unfolding succeeded_in
  on_success b = succeeded_in b.state (record b { failure_count = 0 })

  -- The second critical section of `Execute`: `failed` says whether the function returned an error.
  unfoldable pub settle : Breaker → Bool → ℕ → Breaker
  unfolding on_failure on_success
  settle b failed now = if failed then on_failure b now else on_success b

  -- `Execute` with no other call in between. `none` is `ErrCircuitOpen`; otherwise the result is
  -- whether the function failed.
  unfoldable pub execute : Breaker → ℕ → Bool → ℕ → Breaker × Option Bool
  unfolding admit settle
  execute b now failed later =
      let (b', admitted) = admit b now in
      if admitted then (settle b' failed later, some failed) else (b', none)

-- `State` and `IsOpen`
abbrev pub state_of : Breaker → State
state_of b = b.state

unfoldable pub is_open : Breaker → Bool
is_open b = elim b.state [ open_state ↦ true | _ ↦ false ]

pub record Stats : Type 0 where
  pub state : String
  pub failure_count : ℕ
  pub success_count : ℕ
  pub last_failure : ℕ
  pub is_healthy : Bool

-- `GetStats`
unfoldable pub get_stats : Breaker → Stats
unfolding to_string
get_stats b = record {
  state = to_string b.state;
  failure_count = b.failure_count;
  success_count = b.success_count;
  last_failure = b.last_failure_time;
  is_healthy = elim b.state [ closed ↦ true | _ ↦ false ];
}
