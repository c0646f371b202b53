-- ===== src/Auth.antt =====
-- internal/adapter/auth: the doubles of the password hasher and of the token service, which keeps
-- the tokens that it issued; and internal/platform/clock/fake.go, the clock that tests set.
pub mod Hasher
pub mod Tokens
pub mod Session
use Prim.Native.String
use pfm_go.Common.{
  ℕ, ◌+◌, String, Bool, true, not, ltb, none, some, [], ◌∷◌, ◌==◌, string_eq, if◌then◌else◌,
}
use pfm_go.Types.{Uuid, Time}
use pfm_go.Message.{sentinel, wrapped, Sentinel, named}
use pfm_go.Effect.{
  Result, ok, panic, Action, pure, gets, modify, or_fail, ◌>>=◌, ◌>>◌, annotate, fail_if,
}
use pfm_go.GoMap.{Map, lookup, insert}
use pfm_go.Validate.{text, required, max_len, field, new_result, Violations, check}
use pfm_go.User.{PasswordHasher, TokenService, Clock}

abbrev pub password_result : String → Violations
password_result password =
    field (named "password") (text password) (required ∷ max_len 1000 ∷ []) new_result

module _ {S : Type 0} where
  unfoldable pub validate_password : String → Action S (Unit {0})
  validate_password password = check (password_result password)

  unfoldable pub fake_hash : String → Action S String
  unfolding validate_password
  fake_hash password = do
    annotate "hasher: hash password: %w" (validate_password password)
    pure (String.◌++◌ "fake:" password)

  unfoldable pub fake_verify : String → String → Action S Bool
  fake_verify password hash = pure (hash == String.◌++◌ "fake:" password)

  abbrev pub fake_hasher : PasswordHasher S
  fake_hasher = record { hash = fake_hash; verify = fake_verify }

-- `FakeClock`: the zero value is not initialized; durations are not negative.
pub record FakeClock : Type 0 where
  pub now : Time
  pub initialized : Bool
  pub auto_advance : ℕ

abbrev pub new_fake_clock : Time → FakeClock
new_fake_clock t = record { now = t; initialized = true; auto_advance = 0 }

unfoldable pub clock_now : Action FakeClock Time
clock_now c =
    if not c.initialized
    then (panic, c)
    else (ok c.now, if ltb 0 c.auto_advance then record c { now = c.now + c.auto_advance } else c)

unfoldable pub set : Time → FakeClock → FakeClock
set t c = record c { now = t }

unfoldable pub advance : ℕ → FakeClock → FakeClock
advance d c = record c { now = c.now + d }

unfoldable pub set_auto_advance : ℕ → FakeClock → FakeClock
set_auto_advance d c = record c { auto_advance = d }

-- `fakeTokenEntry`
pub record FakeTokenEntry : Type 0 where
  pub user_id : Uuid
  pub expires_at : Time

-- The clock is shared with whoever sets it, and is part of the state; `drawn` counts the calls of
-- `uuid.New`.
pub record FakeTokenService : Type 0 where
  pub clk : FakeClock
  pub tokens : Map String FakeTokenEntry
  pub drawn : ℕ

abbrev pub new_fake_token_service : FakeClock → FakeTokenService
new_fake_token_service clk = record { clk = clk; tokens = []; drawn = 0 }

-- `f.clk.Now()`
unfoldable pub service_now : Action FakeTokenService Time
unfolding clock_now
service_now f = let (r, c) = clock_now f.clk in (r, record f { clk = c })

unfoldable pub validate : String → Action FakeTokenService Uuid
unfolding service_now
validate token = do
  entry ←
      or_fail (← gets (λ f. lookup token f.tokens))
        (wrapped "token service: validate: %w" (sentinel Sentinel.token_invalid))
  now ← service_now
  fail_if (ltb entry.expires_at now)
      (wrapped "token service: validate: %w" (sentinel Sentinel.token_expired))
  pure entry.user_id

-- `uuid.New` with `String` is not part of the program.
module _ (new_string : ℕ → String) where
  abbrev pub token_of : ℕ → String
  token_of drawn = String.◌++◌ "fake-" (new_string drawn)

  unfoldable pub store_token : String → FakeTokenEntry → FakeTokenService → FakeTokenService
  store_token token entry f = record f { tokens = insert token entry f.tokens; drawn = f.drawn + 1 }

  unfoldable pub issue : Uuid → Time → Action FakeTokenService String
  unfolding store_token
  issue user_id expires_at = do
    token ← gets (λ f. token_of f.drawn)
    modify (store_token token (record { user_id = user_id; expires_at = expires_at }))
    pure token

  abbrev pub fake_token_service : TokenService FakeTokenService
  fake_token_service = record { issue = issue; validate = validate }
