-- ===== src/Auth/Tokens.antt =====
-- internal/adapter/auth/fake_token_service.go: a token is good until it expires.
use pfm_go.Common.{
  ℕ, String, true, ltb, ◌≡◌, refl, ap, ◌∙◌, some, ==_refl, string_eq, arith, if◌then◌else◌,
}
use pfm_go.Types.{Uuid, Time}
use pfm_go.Message.{sentinel, wrapped, Sentinel}
use pfm_go.Effect.{Result, ok, err}
use pfm_go.GoMap.{lookup}
use pfm_go.GoMap.Laws.{lookup-insert}
use pfm_go.Auth.{
  FakeTokenEntry, FakeTokenService, service_now, clock_now, validate, token_of, store_token, issue,
}

-- The answer of `Validate` for a token of a user that expires at a time.
abbrev pub answer : Uuid → Time → Time → Result Uuid
answer user_id expires_at now =
    if ltb expires_at now
    then err (wrapped "token service: validate: %w" (sentinel Sentinel.token_expired))
    else ok user_id

validate-found :
    (token : String) (entry : FakeTokenEntry) (f : FakeTokenService)
    → lookup token f.tokens ≡ some entry
    → f.clk.initialized ≡ true
    → (validate token f).0 ≡ answer entry.user_id entry.expires_at f.clk.now
unfolding validate service_now clock_now
validate-found token entry f found initialized = ground arith

pub service_now-initialized :
    (f : FakeTokenService) → f.clk.initialized ≡ true → (service_now f).0 ≡ ok f.clk.now
unfolding service_now clock_now
service_now-initialized f initialized = ground arith

module _ (new_string : ℕ → String) where
  issue-lookup :
      (user_id : Uuid) (expires_at : Time) (f : FakeTokenService)
      → lookup (token_of new_string f.drawn) (issue new_string user_id expires_at f).1.tokens
        ≡ some (record { user_id = user_id; expires_at = expires_at })
  unfolding issue store_token
  issue-lookup user_id expires_at f =
      let token = token_of new_string f.drawn in
      let entry : FakeTokenEntry = record { user_id = user_id; expires_at = expires_at } in
      lookup-insert token token entry f.tokens ∙ rw (==_refl token)

  pub issue-ok :
      (user_id : Uuid) (expires_at : Time) (f : FakeTokenService)
      → issue new_string user_id expires_at f
        ≡ (ok (token_of new_string f.drawn), (issue new_string user_id expires_at f).1)
  unfolding issue
  issue-ok user_id expires_at f = refl

  -- A token that `Issue` returned, asked for while the service's tokens are as `Issue` left them
  -- and the clock is initialized, is good for its user up to the time at which it expires, that
  -- time included, and is refused as expired from then on.
  pub issue-validate :
      (user_id : Uuid) (expires_at : Time) (token : String) (f f' g : FakeTokenService)
      → issue new_string user_id expires_at f ≡ (ok token, f')
      → g.tokens ≡ f'.tokens
      → g.clk.initialized ≡ true
      → (validate token g).0 ≡ answer user_id expires_at g.clk.now
  unfolding issue
  issue-validate user_id expires_at token f f' g issued same initialized =
      let entry : FakeTokenEntry = record { user_id = user_id; expires_at = expires_at } in
      let name : ok (token_of new_string f.drawn) ≡ ok token = ap (λ r. r.0) issued in
      let stored = issue-lookup user_id expires_at f in
      let after : (issue new_string user_id expires_at f).1.tokens ≡ f'.tokens =
        ap (λ r. r.1.tokens) issued in
      validate-found token entry g (ground arith) initialized
