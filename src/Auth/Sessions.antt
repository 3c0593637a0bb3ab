-- ===== src/Auth/Sessions.antt =====
-- Who gets tokens, and how often a refresh token may be used.
use pack_service.Base.{
  ℕ, ◌≡◌, ◌≢◌, refl, sym, ap, subst, ◌∙◌, Bool, true, false, Option, none, some, arith, ◌==◌,
  if◌then◌else◌,
}
use pack_service.Base.Dict.{string_eq}
use pack_service.Tokens.{
  Error, invalid_credentials, zero_user_id, Result, err, ok, Action, after, pure, fail, User, Token,
  TokenPair, ClaimsWithJwt, Jwt, TokenRepository, TokenConfig, delete_refresh_token,
  find_refresh_token, issue, generate_token_pair, validate_refresh_token, invalidate_user_tokens,
  claims_in, signed, generate_access_token, generate_refresh_token,
}
use pack_service.Tokens.Actions.{ok-after}
use pack_service.Auth.{
  UserRepository, RoleRepository, Crypto, active_user, verify, login, usable_token, refresh_token,
}
use Prim.Native.String.{String}

-- What is documented of the store: a deleted token is not found, and storing another does not bring
-- it back. `IsGone` says of a state that a token is not in it.
pub record StoreLaws {D : Type 0} (repo : TokenRepository D) (IsGone : String → D → Type 0)
    : Type 0 where
  pub delete_gone :
      (t : String) (d : D) (b : Bool)
      → (repo.delete_by_token t d).1 ≡ ok b
      → IsGone t (repo.delete_by_token t d).0
  pub create_gone :
      (t : String) (new : Token) (d : D)
      → IsGone t d
      → new.token ≢ t
      → IsGone t (repo.create new d).0
  pub find_gone :
      (t : String) (d : D) (x : Token) → IsGone t d → (repo.find_by_token t d).1 ≢ ok (some x)

abbrev or_pair : TokenPair → Result TokenPair → TokenPair
or_pair pair (ok p) = p
or_pair pair (err e) = pair

-- An action behind a test that succeeds.
module _ {D A : Type 0} where
  guarded :
      (b : Bool) (x u : A) (e : Error) (d : D)
      → (let m : Action D A = if b then pure x else fail e in m d).1 ≡ ok u
      → (b ≡ true) × (x ≡ u)
  guarded true x u e d h = (refl, ground arith)
  guarded false x u e d h = absurd (ground arith)

  guarded_off :
      (b : Bool) (m : Action D A) (u : A) (e : Error) (d : D)
      → (let k : Action D A = if b then fail e else m in k d).1 ≡ ok u
      → (b ≡ false) × ((m d).1 ≡ ok u)
  guarded_off true m u e d h = absurd (ground arith)
  guarded_off false m u e d h = (refl, h)

module _ {D : Type 0} (jwt : Jwt) (tokens : TokenRepository D) (cfg : TokenConfig)
    (users : UserRepository D) (roles : RoleRepository D) (crypto : Crypto) where
  active_user_ok :
      (found : Option User) (d : D) (u : User)
      → (active_user jwt tokens cfg users roles crypto found d).1 ≡ ok u
      → (found ≡ some u) × (u.active ≡ true)
  active_user_ok none d u e = absurd (ground arith)
  active_user_ok (some x) d u e =
      let (on, q) = guarded x.active x u invalid_credentials d e in
      (ap some q, ap (λ z. z.active) (sym q) ∙ on)

  verify_ok :
      (password : String) (x : User) (d : D) (u : User)
      → (verify jwt tokens cfg users roles crypto password x d).1 ≡ ok u
      → (x ≡ u) × ((x.id == 0) ≡ false) × (crypto.matches x.password password ≡ true)
  verify_ok password x d u e =
      let (good_id, rest) =
        guarded_off (x.id == 0)
          (if crypto.matches x.password password then pure x else fail invalid_credentials) u
          zero_user_id d e in
      let (same, q) = guarded (crypto.matches x.password password) x u invalid_credentials d rest in
      (q, good_id, same)

  -- Whoever logs in with success is the user that the repository finds under the address: the user
  -- is active, has an id, and its stored hash matches the password.
  pub login-IsAuthentic :
      (email password : String) (now : ℕ) (d : D) (pair : TokenPair) (user : User)
      → (login jwt tokens cfg users roles crypto email password now d).1 ≡ ok (pair, user)
      → ((users.find_by_email email d).1 ≡ ok (some user))
        × (user.active ≡ true)
        × (user.id ≢ 0)
        × (crypto.matches user.password password ≡ true)
  unfolding login
  login-IsAuthentic email password now d pair user e =
      let goal : TokenPair × User = (pair, user) in
      let (found, f, _, e1) = ok-after (users.find_by_email email d) _ goal e in
      let d1 = (users.find_by_email email d).0 in
      let (active, a, _, e2) =
        ok-after (active_user jwt tokens cfg users roles crypto found d1) _ goal e1 in
      let d2 = (active_user jwt tokens cfg users roles crypto found d1).0 in
      let (u, v, _, e3) =
        ok-after (verify jwt tokens cfg users roles crypto password active d2) _ goal e2 in
      let d3 = (verify jwt tokens cfg users roles crypto password active d2).0 in
      let (_, _, _, e4) = ok-after (invalidate_user_tokens jwt tokens cfg u.id d3) _ goal e3 in
      let d4 = (invalidate_user_tokens jwt tokens cfg u.id d3).0 in
      let (p, _, _, e5) = ok-after (generate_token_pair jwt tokens cfg u now d4) _ goal e4 in
      let (found_eq, on) = active_user_ok found d1 active a in
      let (same, good_id, matches) = verify_ok password active d2 u v in
      let last : u ≡ user = ground arith in
      subst
        (λ z.
          ((users.find_by_email email d).1 ≡ ok (some z))
          × (z.active ≡ true)
          × (z.id ≢ 0)
          × (crypto.matches z.password password ≡ true))
        (same ∙ last) (f ∙ ap ok found_eq, on, ground arith, matches)

  claims_in_state : (o : Option ClaimsWithJwt) (d : D) → (claims_in jwt tokens cfg o d).0 ≡ d
  claims_in_state none d = refl
  claims_in_state (some c) d = refl

  signed_state : (o : Option String) (d : D) → (signed jwt tokens cfg o d).0 ≡ d
  signed_state none d = refl
  signed_state (some t) d = refl

  refresh_state :
      (o : Option String) (expires : ℕ) (d : D)
      → (let r : D × Result (String × ℕ) =
            after (signed jwt tokens cfg o d) (λ t. pure (t, expires)) in
          r).0
        ≡ d
  refresh_state none expires d = refl
  refresh_state (some t) expires d = refl

  usable_found :
      (stored : Option Token) (now : ℕ) (d : D) (t : Token)
      → (usable_token jwt tokens cfg users roles crypto stored now d).1 ≡ ok t
      → (x : Token) × (stored ≡ some x)
  usable_found none now d t e = absurd (ground arith)
  usable_found (some x) now d t e = (x, refl)

  module _ (IsGone : String → D → Type 0) (laws : StoreLaws tokens IsGone) where
    issue-IsGone :
        (t : String) (user : User) (now : ℕ) (d : D) (pair : TokenPair)
        → IsGone t d
        → (issue jwt tokens cfg user now d).1 ≡ ok pair
        → pair.refresh_token ≢ t
        → IsGone t (issue jwt tokens cfg user now d).0
    unfolding issue
    issue-IsGone t user now d pair gone e n =
        let (access, _, s1, e1) =
          ok-after (generate_access_token jwt tokens cfg user now d) _ pair e in
        let d1 = (generate_access_token jwt tokens cfg user now d).0 in
        let r1 : d1 ≡ d = signed_state _ d in
        let (new, _, s2, e2) =
          ok-after (generate_refresh_token jwt tokens cfg user now d1) _ pair e1 in
        let d2 = (generate_refresh_token jwt tokens cfg user now d1).0 in
        let r2 : d2 ≡ d1 = refresh_state _ _ d1 in
        let stored : Token = record {
          id = 0;
          user_id = user.id;
          token = new.0;
          type = "refresh";
          expires_at = new.1;
          created_at = 0;
        } in
        let (_, _, s3, e3) = ok-after (tokens.create stored d2) _ pair e2 in
        let same : new.0 ≡ pair.refresh_token = ap (λ r. (or_pair pair r).refresh_token) e3 in
        subst (IsGone t) (sym (ap (λ r. r.0) (s1 ∙ s2 ∙ s3))) (
          laws.create_gone t stored d2 (subst (IsGone t) (sym (r2 ∙ r1)) gone)
            (λ q. n (sym same ∙ q)))

    generate-IsGone :
        (t : String) (user : User) (now : ℕ) (d : D) (pair : TokenPair)
        → IsGone t d
        → (generate_token_pair jwt tokens cfg user now d).1 ≡ ok pair
        → pair.refresh_token ≢ t
        → IsGone t (generate_token_pair jwt tokens cfg user now d).0
    unfolding generate_token_pair
    generate-IsGone t user now d pair gone e n =
        let (off, rest) =
          guarded_off (user.id == 0) (issue jwt tokens cfg user now) pair zero_user_id d e in
        rw off (issue-IsGone t user now d pair gone rest n)

    first_use :
        (refresh : String) (now : ℕ) (d : D) (pair : TokenPair)
        → (refresh_token jwt tokens cfg users roles crypto refresh now d).1 ≡ ok pair
        → pair.refresh_token ≢ refresh
        → IsGone refresh (refresh_token jwt tokens cfg users roles crypto refresh now d).0
    unfolding refresh_token
    first_use refresh now d pair e n =
        let (claims, _, s1, e1) =
          ok-after (validate_refresh_token jwt tokens cfg refresh now d) _ pair e in
        let d1 = (validate_refresh_token jwt tokens cfg refresh now d).0 in
        let (stored, _, s2, e2) =
          ok-after (find_refresh_token jwt tokens cfg refresh d1) _ pair e1 in
        let d2 = (find_refresh_token jwt tokens cfg refresh d1).0 in
        let (_, _, s3, e3) =
          ok-after (usable_token jwt tokens cfg users roles crypto stored now d2) _ pair e2 in
        let d3 = (usable_token jwt tokens cfg users roles crypto stored now d2).0 in
        let (found, _, s4, e4) = ok-after (users.find_by_id claims.user_id d3) _ pair e3 in
        let d4 = (users.find_by_id claims.user_id d3).0 in
        let (user, _, s5, e5) =
          ok-after (active_user jwt tokens cfg users roles crypto found d4) _ pair e4 in
        let d5 = (active_user jwt tokens cfg users roles crypto found d4).0 in
        let (b, deleted, s6, e6) =
          ok-after (delete_refresh_token jwt tokens cfg refresh d5) _ pair e5 in
        let d6 = (delete_refresh_token jwt tokens cfg refresh d5).0 in
        subst (IsGone refresh) (sym (ap (λ r. r.0) (s1 ∙ s2 ∙ s3 ∙ s4 ∙ s5 ∙ s6)))
          (generate-IsGone refresh user now d6 pair (laws.delete_gone refresh d5 b deleted) e6 n)

    second_use :
        (refresh : String) (later : ℕ) (d : D) (again : TokenPair)
        → IsGone refresh d
        → (refresh_token jwt tokens cfg users roles crypto refresh later d).1 ≢ ok again
    unfolding refresh_token validate_refresh_token
    second_use refresh later d again gone e =
        let (claims, _, _, e1) =
          ok-after (validate_refresh_token jwt tokens cfg refresh later d) _ again e in
        let d1 = (validate_refresh_token jwt tokens cfg refresh later d).0 in
        let same : d1 ≡ d = claims_in_state _ d in
        let (stored, s, _, e2) =
          ok-after (find_refresh_token jwt tokens cfg refresh d1) _ again e1 in
        let d2 = (find_refresh_token jwt tokens cfg refresh d1).0 in
        let (t, u, _, _) =
          ok-after (usable_token jwt tokens cfg users roles crypto stored later d2) _ again e2 in
        let (x, found) = usable_found stored later d2 t u in
        laws.find_gone refresh d1 x (subst (IsGone refresh) (sym same) gone) (s ∙ ap ok found)

    -- In a store that obeys `StoreLaws`: a refresh token with which `RefreshToken` has succeeded,
    -- and given out another one, is of no use any more. A second call with it fails at any time, on
    -- the state that the first call has left.
    pub refresh_token-once :
        (refresh : String) (now later : ℕ) (d : D) (pair again : TokenPair)
        → (refresh_token jwt tokens cfg users roles crypto refresh now d).1 ≡ ok pair
        → pair.refresh_token ≢ refresh
        → (refresh_token jwt tokens cfg users roles crypto refresh later
            (refresh_token jwt tokens cfg users roles crypto refresh now d).0).1
          ≢ ok again
    refresh_token-once refresh now later d pair again e n =
        second_use refresh later _ again (first_use refresh now d pair e n)
