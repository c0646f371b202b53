-- ===== src/User/Login.antt =====
-- internal/domain/user/login_logic.go: the operation of `LoginLogic`.
pub mod Outcomes
use pfm_go.Common.{String, ℕ, ◌+◌, not, if◌then◌else◌}
use pfm_go.Message.{sentinel, wrapped, Sentinel, is}
use pfm_go.Effect.{Action, pure, fail, ◌>>=◌, ◌>>◌, on_error, annotate, fail_if}
use pfm_go.User.{LoginResult, Repository, PasswordHasher, TokenService, Clock}

-- `tokenTTL` is a time in the unit of `Time`; the constructor asks for a positive one.
module _ {S : Type 0} (repo : Repository S) (hasher : PasswordHasher S) (tokens : TokenService S)
    (clk : Clock S) (token_ttl : ℕ) where
  unfoldable pub login : String → String → Action S LoginResult
  login email password = do
    u ← on_error (repo.find_by_email email) λ e.
        if is e Sentinel.login_invalid_credentials
        then fail (wrapped "login: find user: %w" (sentinel Sentinel.login_invalid_credentials))
        else fail (wrapped "login: find user: %w" e)
    verified ← annotate "login: verify password: %w" (hasher.verify password u.password_hash)
    fail_if (not verified)
        (wrapped "login: verify password: %w" (sentinel Sentinel.login_invalid_credentials))
    now ← clk.now
    token ← annotate "login: issue token: %w" (tokens.issue u.id (now + token_ttl))
    pure (record { token = token; expires_at = now + token_ttl })
