-- ===== src/AuthHandler/Logins.antt =====
-- What the endpoint Login answers.
use pack_service.Base.{
  ℕ, ◌≡◌, ◌≢◌, refl, sym, ap, ◌∙◌, ◌⊎◌, inl, inr, true, false, Option, none, some, arith, ◌==◌,
}
use pack_service.Tokens.{
  Error, invalid_credentials, user_exists, invalid_token, token_blacklisted, zero_user_id,
  no_user_role, failure, Result, err, ok, User, TokenPair, Jwt, TokenRepository, TokenConfig,
}
use pack_service.Tokens.Actions.{after-ok}
use pack_service.Auth.{UserRepository, RoleRepository, Crypto, login}
use pack_service.Auth.Sessions.{login-IsAuthentic}
use pack_service.AuthHandler.{
  LoginRequest, validate_login, Body, login_response, response, answered, answer_login,
  login_handler,
}
use pack_service.Replies.{success_of, error_of}
use Prim.Native.String.{String}

module _ {D : Type 0} (jwt : Jwt) (tokens : TokenRepository D) (cfg : TokenConfig)
    (users : UserRepository D) (roles : RoleRepository D) (crypto : Crypto) where
  -- A user that is not let in: there is none, it is not active, or the password is not its own.
  abbrev pub IsRejected : String → Option User → Type 0
  IsRejected password none = Unit
  IsRejected password (some u) =
      (u.active ≡ false)
      ⊎ ((u.active ≡ true) × (u.id ≢ 0) × (crypto.matches u.password password ≡ false))

  login-rejected :
      (email password : String) (now : ℕ) (d : D) (found : Option User)
      → (users.find_by_email email d).1 ≡ ok found
      → IsRejected password found
      → login jwt tokens cfg users roles crypto email password now d
        ≡ ((users.find_by_email email d).0, err invalid_credentials)
  unfolding login
  login-rejected email password now d none f h = after-ok (users.find_by_email email d) _ none f
  login-rejected email password now d (some u) f (inl off) =
      after-ok (users.find_by_email email d) _ (some u) f ∙ rw off refl
  login-rejected email password now d (some u) f (inr (on, id, wrong)) =
      let has_id : (u.id == 0) ≡ false = ground arith in
      after-ok (users.find_by_email email d) _ (some u) f ∙ rw (on, has_id, wrong) refl

  answer_login-error :
      (e : Error) (b : Body)
      → (answer_login jwt tokens cfg users roles crypto (err e)) ≢ success_of 200 b
  unfolding answer_login
  answer_login-error invalid_credentials b h = ground arith
  answer_login-error user_exists b h = ground arith
  answer_login-error invalid_token b h = ground arith
  answer_login-error token_blacklisted b h = ground arith
  answer_login-error zero_user_id b h = ground arith
  answer_login-error no_user_role b h = ground arith
  answer_login-error failure b h = ground arith

  answer_login-success :
      (x : Result (TokenPair × User)) (b : Body)
      → (answer_login jwt tokens cfg users roles crypto x) ≡ success_of 200 b
      → (pair : TokenPair) × (user : User) × (x ≡ ok (pair, user))
        × (b ≡ response jwt tokens cfg users roles crypto pair user)
  unfolding answer_login
  answer_login-success (err e) b h = absurd (answer_login-error e b h)
  answer_login-success (ok (pair, user)) b h = (pair, user, refl, cc)

  login_handler-valid :
      (r : LoginRequest) (now : ℕ) (d : D)
      → validate_login r ≡ none
      → login_handler jwt tokens cfg users roles crypto (some r) now d
        ≡ answered jwt tokens cfg users roles crypto
            (answer_login jwt tokens cfg users roles crypto)
            (login jwt tokens cfg users roles crypto r.email r.password now d)
  unfolding login_handler
  login_handler-valid r now d valid = rw (valid, login_handler) refl

  -- For a request that passes the checks: if there is no user with the address, or it is not
  -- active, or it has an id and the password is not its own, the answer is the same, 401 with the
  -- same message key, and nothing is changed beyond the search for the user; and if the answer is
  -- 200, it holds the address and the name of the user that is found under the address, who is
  -- active, has an id, and whose hash matches the password.
  pub login_handler-IsAuthentic :
      (r : LoginRequest) (now : ℕ) (d : D)
      → validate_login r ≡ none
      → ((found : Option User)
          → (users.find_by_email r.email d).1 ≡ ok found
          → IsRejected r.password found
          → login_handler jwt tokens cfg users roles crypto (some r) now d
            ≡ ((users.find_by_email r.email d).0, error_of 401 "unauthorized"))
        × ((b : Body)
            → (login_handler jwt tokens cfg users roles crypto (some r) now d).1 ≡ success_of 200 b
            → (pair : TokenPair) × (user : User) × (b
                ≡ login_response pair.access_token pair.refresh_token user.email user.name)
              × ((users.find_by_email r.email d).1 ≡ ok (some user))
              × (user.active ≡ true)
              × (user.id ≢ 0)
              × (crypto.matches user.password r.password ≡ true))
  unfolding login_handler answer_login
  login_handler-IsAuthentic r now d valid =
      let valid_answer = login_handler-valid r now d valid in
      (
        (λ found f h. valid_answer ∙ rw (login-rejected r.email r.password now d found f h) refl),
        λ b h.
            let served : (answer_login jwt tokens cfg users roles crypto
                  (login jwt tokens cfg users roles crypto r.email r.password now d).1)
                ≡ success_of 200 b =
              ap (λ z. z.1) (sym valid_answer) ∙ h in
            let (pair, user, logged_in, body) = answer_login-success _ b served in
            let (found, active, id, matches) =
              login-IsAuthentic jwt tokens cfg users roles crypto r.email r.password now d pair user
                logged_in in
            (pair, user, body, found, active, id, matches),
      )
