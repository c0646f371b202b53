-- ===== src/User/Login/Outcomes.antt =====
-- internal/domain/user/login_logic.go: how a login ends, over any storage and token service.
use pfm_go.Common.{String, ℕ, ◌+◌, true, false, ◌≡◌, arith}
use pfm_go.Types.{Time}
use pfm_go.Message.{Error, sentinel, wrapped, Sentinel, is}
use pfm_go.Effect.{ok, err}
use pfm_go.User.{User, Repository, PasswordHasher, TokenService, Clock}
use pfm_go.User.Login.{login}

-- The two errors of a refused login.
abbrev pub unknown_email : Error
unknown_email = wrapped "login: find user: %w" (sentinel Sentinel.login_invalid_credentials)

abbrev pub wrong_password : Error
wrong_password = wrapped "login: verify password: %w" (sentinel Sentinel.login_invalid_credentials)

module _ {S : Type 0} (repo : Repository S) (hasher : PasswordHasher S) (tokens : TokenService S)
    (clk : Clock S) (token_ttl : ℕ) (email password : String) where
  pub login-unknown_email :
      (e : Error) (s s' : S)
      → repo.find_by_email email s ≡ (err e, s')
      → is e Sentinel.login_invalid_credentials ≡ true
      → login repo hasher tokens clk token_ttl email password s ≡ (err unknown_email, s')
  unfolding login
  login-unknown_email e s s' missing credentials = ground arith

  pub login-wrong_password :
      (u : User) (s s' s'' : S)
      → repo.find_by_email email s ≡ (ok u, s')
      → hasher.verify password u.password_hash s' ≡ (ok false, s'')
      → login repo hasher tokens clk token_ttl email password s ≡ (err wrong_password, s'')
  unfolding login
  login-wrong_password u s s' s'' found wrong = ground arith

  pub login-issue :
      (u : User) (now : Time) (token : String) (s s' s'' t t' : S)
      → repo.find_by_email email s ≡ (ok u, s')
      → hasher.verify password u.password_hash s' ≡ (ok true, s'')
      → clk.now s'' ≡ (ok now, t)
      → tokens.issue u.id (now + token_ttl) t ≡ (ok token, t')
      → login repo hasher tokens clk token_ttl email password s
        ≡ (ok (record { token = token; expires_at = now + token_ttl }), t')
  unfolding login
  login-issue u now token s s' s'' t t' found right reads issued = ground arith
