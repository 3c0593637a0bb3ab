-- ===== src/RateLimit/Budget.antt =====
-- What a client gets in a window, whatever the other clients send and whenever the cleanup runs.
use Prim.Native.String.{String}
use text.Mathlib.TextEquality.{eq_iff}
use pack_service.Base.{
  ℕ, zero, suc, ◌+◌, ◌*◌, ◌≤◌, ◌≡◌, refl, sym, ap, ◌∙◌, subst, inl, inr, Bool, true, false, ◌&&◌,
  List, [], ◌∷◌, Option, none, some, arith, ltb, if◌then◌else◌, Bool-cases, min,
}
use pack_service.Base.{All, Outcome, returns, ◌>>=◌, Returns, returned, Returns->>=}
use pack_service.Base.Int.{ℤ, pos}
use pack_service.Base.Machine.{sub_int, max_int}
use pack_service.Base.Dict.{◌==◌, string_eq}
use pack_service.RateLimit.{
  Visitor, Limiter, starts_window, visit, check_rate_limit, cleanup_expired,
}
use pack_service.RateLimit.Visits.{kept, visitor_of, IsSound, IsChecked, check_rate_limit-IsChecked}
use pack_service.RateLimit.Cleanup.{cleanup_expired-IsSound, visitor_of-cleanup_expired}

-- What happens to a limiter.
pub data Event : Type 0 where
  request : String → ℕ → Event
  cleanup : ℕ → Event

abbrev pub time_of : Event → ℕ
time_of (request id now) = now
time_of (cleanup now) = now

module _ (me : String) where
  -- The requests of one client among the events.
  unfoldable pub requests : List Event → ℕ
  requests [] = 0
  requests (request id now ∷ es) = if id == me then suc (requests es) else requests es
  requests (cleanup now ∷ es) = requests es

  abbrev counted : Bool → ℕ → ℕ
  counted true n = suc n
  counted false n = n

  -- Runs the events, and counts the requests of the client that are allowed.
  unfoldable pub run : Limiter → List Event → Outcome (Limiter × ℕ)
  run rl [] = returns (rl, 0)
  run rl (request id now ∷ es) = do
    (rl', allowed, _) ← check_rate_limit rl id now
    (rl'', n) ← run rl' es
    returns (rl'', counted (id == me && allowed) n)
  run rl (cleanup now ∷ es) = run (cleanup_expired rl now) es

  -- The client has `n` tokens left in a window that began at `since`.
  pub record HasTokens (window since n : ℕ) (rl : Limiter) : Type 0 where
    pub sound : IsSound rl
    pub same_window : rl.window ≡ window
    pub visitor : visitor_of rl me ≡ some (record { tokens = pos n; last_reset = since })

  abbrev tokens_at : ℕ → ℕ → Option Visitor
  tokens_at n since = some (record { tokens = pos n; last_reset = since })

  visit_some :
      (rate : ℤ) (window now since n : ℕ)
      → now ≤ since + window
      → suc n ≤ max_int
      → visit rate window now (tokens_at (suc n) since) ≡ (tokens_at n since, true, pos n)
  unfolding visit sub_int
  visit_some rate window now since n h small = ground arith

  visit_zero :
      (rate : ℤ) (window now since : ℕ)
      → now ≤ since + window
      → visit rate window now (tokens_at 0 since) ≡ (none, false, pos 0)
  unfolding visit
  visit_zero rate window now since h = ground arith

  module _ (window since : ℕ) (rl : Limiter) where
    after_cleanup :
        (n now : ℕ)
        → HasTokens window since n rl
        → now ≤ since + window
        → HasTokens window since n (cleanup_expired rl now)
    unfolding cleanup_expired
    after_cleanup n now h le = record {
      sound = cleanup_expired-IsSound rl now h.sound;
      same_window = h.same_window;
      visitor =
          visitor_of-cleanup_expired rl now me h.sound
          ∙ rw h.visitor (
              let recent : ltb (since + rl.window * 2) now ≡ false =
                recent_test now h.same_window le in
              rw recent);
    }
      where
        recent_test :
            (t : ℕ)
            → rl.window ≡ window
            → t ≤ since + window
            → ltb (since + rl.window * 2) t ≡ false
        recent_test t e le = ground arith

    module _ (now : ℕ) (le : now ≤ since + window) (r : Limiter × Bool × ℤ) where
      after_other :
          (n : ℕ) (id : String)
          → (id == me) ≡ false
          → HasTokens window since n rl
          → IsChecked rl id now r
          → HasTokens window since n r.0
      after_other n id apart h c = record {
        sound = c.sound;
        same_window = c.same_window ∙ h.same_window;
        visitor = c.visitors me ∙ rw apart h.visitor;
      }

      my_visitor :
          (w : Option Visitor)
          → IsChecked rl me now r
          → (visit rl.rate rl.window now (visitor_of rl me)).0 ≡ w
          → visitor_of r.0 me ≡ kept w (visitor_of rl me)
      my_visitor w c e =
          let same : (me == me) ≡ true = (eq_iff me me).1 refl in c.visitors me ∙ rw (same, e)

      after_mine :
          (n : ℕ)
          → suc n ≤ max_int
          → HasTokens window since (suc n) rl
          → IsChecked rl me now r
          → HasTokens window since n r.0 × (r.1 ≡ true)
      after_mine n small h c =
          let d : visit rl.rate rl.window now (visitor_of rl me)
              ≡ (tokens_at n since, true, pos n) =
            rw h.visitor (rw h.same_window (visit_some rl.rate window now since n le small)) in
          (
            record {
              sound = c.sound;
              same_window = c.same_window ∙ h.same_window;
              visitor = my_visitor (tokens_at n since) c (ap (λ x. x.0) d);
            },
            c.allowed ∙ ap (λ x. x.1) d,
          )

      after_refused :
          HasTokens window since 0 rl
          → IsChecked rl me now r
          → HasTokens window since 0 r.0 × (r.1 ≡ false)
      after_refused h c =
          let d : visit rl.rate rl.window now (visitor_of rl me) ≡ (none, false, pos 0) =
            rw h.visitor (rw h.same_window (visit_zero rl.rate window now since le)) in
          (
            record {
              sound = c.sound;
              same_window = c.same_window ∙ h.same_window;
              visitor = my_visitor none c (ap (λ x. x.0) d) ∙ h.visitor;
            },
            c.allowed ∙ ap (λ x. x.1) d,
          )

      -- A request of the client and the events after it.
      after_my_request :
          (n : ℕ) (es : List Event)
          → n ≤ max_int
          → HasTokens window since n rl
          → IsChecked rl me now r
          → ((m : ℕ)
              → m ≤ max_int
              → HasTokens window since m r.0
              → Returns {A = Limiter × ℕ} (λ q. q.1 ≡ min (requests es) m) (run r.0 es))
          → Returns {A = Limiter × ℕ}
              (λ q. q.1 ≡ min (suc (requests es)) n)
              (run r.0 es >>= λ q. returns (q.0, counted r.1 q.1))
      after_my_request zero es small h c rest =
          let (h', refused) = after_refused h c in
          Returns->>= (rest 0 small h') λ q count. returned (rw refused (omega arith))
      after_my_request (suc n) es small h c rest =
          let (h', allowed) = after_mine n small h c in
          Returns->>= (rest n (omega arith) h') λ q count. returned (rw allowed (omega arith))

  -- In a sound limiter, while the window lasts, a client with `n` tokens gets as many of its
  -- requests through as it has tokens, and all of them if it sends fewer, whatever other clients
  -- send and whenever the cleanup runs in between.
  pub run-budget :
      (es : List Event) (rl : Limiter) (window since n : ℕ)
      → n ≤ max_int
      → HasTokens window since n rl
      → All (λ e. time_of e ≤ since + window) es
      → Returns (λ r. r.1 ≡ min (requests es) n) (run rl es)
  unfolding run requests
  run-budget [] rl window since n small h in_time = returned (omega arith)
  run-budget (cleanup now ∷ es) rl window since n small h in_time =
      run-budget es (cleanup_expired rl now) window since n small
        (after_cleanup window since rl n now h in_time.0) in_time.1
  run-budget (request id now ∷ es) rl window since n small h in_time =
      Returns->>= (check_rate_limit-IsChecked rl id now h.sound) λ r c.
        elim (Bool-cases (id == me)) [
          | inr apart ↦
              Returns->>=
                (run-budget es r.0 window since n small
                  (after_other window since rl now in_time.0 r n id apart h c) in_time.1)
                λ q count. returned (rw apart count)
          | inl same ↦ rw same (
              after_my_request window since rl now in_time.0 r n es small h
                (subst (λ x. IsChecked rl x now r) ((eq_iff id me).0 same) c)
                λ m m_small tokens. run-budget es r.0 window since m m_small tokens in_time.1)
        ]

  visit_start :
      (window now n : ℕ) (old : Option Visitor)
      → starts_window window now old ≡ true
      → suc n ≤ max_int
      → visit (pos (suc n)) window now old ≡ (tokens_at n now, true, pos n)
  unfolding visit sub_int
  visit_start window now n old starts small = ground arith

  first-HasTokens :
      (rl : Limiter) (now n : ℕ) (r : Limiter × Bool × ℤ)
      → rl.rate ≡ pos (suc n)
      → suc n ≤ max_int
      → starts_window rl.window now (visitor_of rl me) ≡ true
      → IsChecked rl me now r
      → HasTokens rl.window now n r.0 × (r.1 ≡ true)
  first-HasTokens rl now n r rate small starts c =
      let d : visit rl.rate rl.window now (visitor_of rl me) ≡ (tokens_at n now, true, pos n) =
        subst (λ z. visit z rl.window now (visitor_of rl me) ≡ (tokens_at n now, true, pos n))
          (sym rate) (visit_start rl.window now n (visitor_of rl me) starts small) in
      let written : (visit rl.rate rl.window now (visitor_of rl me)).0 ≡ tokens_at n now =
        ap (λ x. x.0) d in
      let same : (me == me) ≡ true = (eq_iff me me).1 refl in
      (
        record {
          sound = c.sound;
          same_window = c.same_window;
          visitor = c.visitors me ∙ rw (same, written);
        },
        c.allowed ∙ ap (λ x. x.1) d,
      )

  -- In a sound limiter, a client whose window has run out, or that was never seen, starts a new
  -- window with its next request, and of this one and its further requests in the window exactly
  -- the configured rate gets through, or all where there are fewer, whatever other clients send and
  -- whenever the cleanup runs. The rate is at least 1.
  pub run-window :
      (rl : Limiter) (since n : ℕ) (es : List Event)
      → IsSound rl
      → rl.rate ≡ pos (suc n)
      → suc n ≤ max_int
      → starts_window rl.window since (visitor_of rl me) ≡ true
      → All (λ e. time_of e ≤ since + rl.window) es
      → Returns (λ r. r.1 ≡ min (suc (requests es)) (suc n)) (run rl (request me since ∷ es))
  unfolding run requests
  run-window rl since n es sound rate small starts in_time =
      let same : (me == me) ≡ true = (eq_iff me me).1 refl in
      Returns->>= (check_rate_limit-IsChecked rl me since sound) λ r c.
        let (tokens, allowed) = first-HasTokens rl since n r rate small starts c in
        Returns->>= (run-budget es r.0 rl.window since n (omega arith) tokens in_time)
          λ q count. returned (rw (same, allowed) (omega arith))
