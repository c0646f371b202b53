-- ===== src/Auth/Session.antt =====
-- Registration, login and the tokens together: `UserLogic`, `LoginLogic` and the doubles of the
-- storage and of the token service, whose clock the login reads.
use pfm_go.Common.{ℕ, ◌+◌, String, true, ◌≡◌, refl, ap, ◌∙◌, nat_eq, string_eq, arith}
use pfm_go.Types.{Uuid, Time}
use pfm_go.Effect.{ok, Action}
use pfm_go.GoMap.{lookup}
use pfm_go.User.{User, RegisterInput, Repository, PasswordHasher, TokenService, Clock}
use pfm_go.User.Logic.{register}
use pfm_go.User.Logic.Ends.{register-create}
use pfm_go.User.Login.{login}
use pfm_go.User.Fake.{FakeUserRepository, fake_user_repository, create}
use pfm_go.User.Fake.Outcomes.{create-stored, find_by_email-found}
use pfm_go.User.Login.Outcomes.{login-issue}
use pfm_go.Auth.Tokens.{answer, issue-validate, issue-ok, service_now-initialized}
use pfm_go.Auth.{token_of, FakeTokenService, service_now, issue, validate}

pub record World : Type 0 where
  pub users : FakeUserRepository
  pub service : FakeTokenService

-- An operation of one part of the state.
unfoldable pub on_users : {A : Type 0} → Action FakeUserRepository A → Action World A
on_users m w = let (r, users) = m w.users in (r, record w { users = users })

unfoldable pub on_service : {A : Type 0} → Action FakeTokenService A → Action World A
on_service m w = let (r, service) = m w.service in (r, record w { service = service })

-- `uuid.New`, its text, and `strings.ToLower` are not part of the program.
module _ (uuid_new : ℕ → Uuid) (to_lower : String → String) (new_string : ℕ → String) where
  abbrev users_repo : Repository FakeUserRepository
  users_repo = fake_user_repository uuid_new to_lower

  abbrev pub repo : Repository World
  repo = record {
    find_by_id = λ id. on_users (users_repo.find_by_id id);
    find_by_email = λ email. on_users (users_repo.find_by_email email);
    create = λ input hash caller_id. on_users (users_repo.create input hash caller_id);
    update_profile =
        λ id input v caller_id. on_users (users_repo.update_profile id input v caller_id);
    change_password =
        λ id hash v caller_id. on_users (users_repo.change_password id hash v caller_id);
    deactivate = λ id caller_id. on_users (users_repo.deactivate id caller_id);
  }

  abbrev pub tokens : TokenService World
  tokens = record {
    issue = λ user_id expires_at. on_service (issue new_string user_id expires_at);
    validate = λ token. on_service (validate token);
  }

  abbrev pub clk : Clock World
  clk = record { now = on_service service_now }

  -- The user that a registration returned is found by any spelling of the e-mail that is the same
  -- in lower case, while the users are as the registration left them.
  register-find_by_email :
      (hasher : PasswordHasher World) (input : RegisterInput) (caller_id : Uuid) (u : User)
      (w w' z : World) (email : String)
      → register repo hasher input caller_id w ≡ (ok u, w')
      → to_lower email ≡ to_lower input.email
      → z.users ≡ w'.users
      → (hash : String) × (t : World) × (hasher.hash input.password w ≡ (ok hash, t))
        × (u.password_hash ≡ hash)
        × (repo.find_by_email email z ≡ (ok u, z))
  unfolding on_users
  register-find_by_email hasher input caller_id u w w' z email registered same_email same_users =
      let (hash, t, hashed, created) =
        register-create repo hasher input caller_id u w w' registered in
      let made : create uuid_new to_lower input hash caller_id t.users ≡ (ok u, w'.users) =
        ground arith in
      let (working, there, has_hash) =
        create-stored uuid_new to_lower input hash caller_id u t.users w'.users made in
      let found =
        find_by_email-found uuid_new to_lower email u z.users (ap (λ f. f.err) same_users ∙ working)
          (ap (λ k. lookup k z.users.by_email) same_email
            ∙ ap (λ f. lookup (to_lower input.email) f.by_email) same_users
            ∙ there) in
      (hash, t, hashed, has_hash, rw found)

  now-reads :
      (z : World)
      → z.service.clk.initialized ≡ true
      → clk.now z ≡ (ok z.service.clk.now, record z { service = (service_now z.service).1 })
  unfolding on_service
  now-reads z initialized = rw (service_now-initialized z.service initialized)

  issue-issues :
      (user_id : Uuid) (expires_at : Time) (z : World)
      → tokens.issue user_id expires_at z ≡ (
        ok (token_of new_string z.service.drawn),
        record z { service = (issue new_string user_id expires_at z.service).1 },
      )
  unfolding on_service issue
  issue-issues user_id expires_at z = refl

  -- A registration that succeeded can log in: whatever else has changed since, while the users
  -- are as the registration left them and the clock is initialized, a login with the same
  -- password and any spelling of the e-mail that is the same in lower case returns a token which
  -- expires after the service's time to live. Up to that time, while the service keeps its tokens,
  -- `Validate` answers the registered user for it, and later that it has expired. This holds for a
  -- hasher that verifies each password against what it hashed it to.
  pub register-login :
      (hasher : PasswordHasher World)
      → ((p h : String) (s s' t : World)
          → hasher.hash p s ≡ (ok h, s')
          → hasher.verify p h t ≡ (ok true, t))
      → (token_ttl : ℕ) (input : RegisterInput) (caller_id : Uuid) (u : User) (w w' z : World)
        (email : String)
      → register repo hasher input caller_id w ≡ (ok u, w')
      → to_lower email ≡ to_lower input.email
      → z.users ≡ w'.users
      → z.service.clk.initialized ≡ true
      → (g : FakeTokenService)
      → g.tokens ≡ (login repo hasher tokens clk token_ttl email input.password z).1.service.tokens
      → g.clk.initialized ≡ true
      → let expires_at = z.service.clk.now + token_ttl in
        (token : String) × ((login repo hasher tokens clk token_ttl email input.password z).0
          ≡ ok (record { token = token; expires_at = expires_at }))
        × ((validate token g).0 ≡ answer u.id expires_at g.clk.now)
  register-login hasher verifies token_ttl input caller_id u w w' z email registered same_email
        same_users initialized g same_tokens ready =
      let (hash, t, hashed, has_hash, found) =
        register-find_by_email hasher input caller_id u w w' z email registered same_email
          same_users in
      let verified : hasher.verify input.password u.password_hash z ≡ (ok true, z) =
        rw has_hash (verifies input.password hash w t z hashed) in
      let expires_at = z.service.clk.now + token_ttl in
      let z1 : World = record z { service = (service_now z.service).1 } in
      let token = token_of new_string z1.service.drawn in
      let (_, service) = issue new_string u.id expires_at z1.service in
      let logged_in =
        login-issue repo hasher tokens clk token_ttl email input.password u z.service.clk.now token
          z z z z1 (record z1 { service = service }) found verified (now-reads z initialized)
          (issue-issues u.id expires_at z1) in
      (
        token,
        ap (λ r. r.0) logged_in,
        issue-validate new_string u.id expires_at token z1.service service g
            (issue-ok new_string u.id expires_at z1.service)
            (same_tokens ∙ ap (λ r. r.1.service.tokens) logged_in) ready,
      )
