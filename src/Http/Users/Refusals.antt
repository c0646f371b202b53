-- ===== src/Http/Users/Refusals.antt =====
-- internal/adapter/http/auth.go over internal/domain/user/login_logic.go: what a refused login
-- shows.
use pfm_go.Common.{ℕ, String, true, false, ◌≡◌, refl, ◌∙◌, [], some, arith}
use pfm_go.Message.{Error, Sentinel, is, msg_login_invalid_credentials}
use pfm_go.Effect.{Action, ok, err}
use pfm_go.Validate.{error, has_violations}
use pfm_go.User.{User, LoginResult, Repository, PasswordHasher, TokenService, Clock}
use pfm_go.User.Login.{login}
use pfm_go.User.Login.Outcomes.{
  unknown_email, wrong_password, login-unknown_email, login-wrong_password,
}
use pfm_go.Http.{Request}
use pfm_go.Http.Wire.{Body, Codec, LoginRequest, Payload}
use pfm_go.Http.Response.{
  Response, or_reply, write_json, write_error, first_match, map_error, max_request_body_bytes,
}
use pfm_go.Http.Users.{credentials_result, or_violations, login_handler}

-- The answer to a login that is refused.
abbrev pub refused : Response
refused = write_json 401 (Payload.error_message msg_login_invalid_credentials)

refused_unknown : write_error unknown_email ≡ refused
unfolding write_error map_error first_match is
refused_unknown = refl

refused_wrong : write_error wrong_password ≡ refused
unfolding write_error map_error first_match is
refused_wrong = refl

-- The body decodes to credentials that are not empty.
abbrev pub Submits : Codec → Request → LoginRequest → Type 0
Submits codec r req =
    (codec.decode max_request_body_bytes Body.login r.body ≡ some req)
    × (credentials_result codec req.email req.password ≡ [])

module _ (codec : Codec) {S : Type 0} where
  login_handler-error :
      (f : String → String → Action S LoginResult) (r : Request) (req : LoginRequest) (e : Error)
      (s s' : S)
      → Submits codec r req
      → f req.email req.password s ≡ (err e, s')
      → login_handler codec f r s ≡ (ok (write_error e), s')
  unfolding login_handler or_reply or_violations error has_violations
  login_handler-error f r req e s s' (decoded, valid) failed = ground arith

  -- A login with an e-mail that no user has and one with a wrong password, be they of different
  -- users, by different requests and in different states, get one and the same response: the
  -- status 401 and the text for invalid credentials. The requests carry credentials that are not
  -- empty, the storage reports a missing user as invalid credentials, and the hasher gives a
  -- verdict.
  pub refusals_look_alike :
      (repo : Repository S) (hasher : PasswordHasher S) (tokens : TokenService S) (clk : Clock S)
      (token_ttl : ℕ) (r q : Request) (req other : LoginRequest) (e : Error) (u : User)
      (s s' t t' t'' : S)
      → Submits codec r req
      → repo.find_by_email req.email s ≡ (err e, s')
      → is e Sentinel.login_invalid_credentials ≡ true
      → Submits codec q other
      → repo.find_by_email other.email t ≡ (ok u, t')
      → hasher.verify other.password u.password_hash t' ≡ (ok false, t'')
      → (login_handler codec (login repo hasher tokens clk token_ttl) r s ≡ (ok refused, s'))
        × (login_handler codec (login repo hasher tokens clk token_ttl) q t ≡ (ok refused, t''))
  refusals_look_alike repo hasher tokens clk token_ttl r q req other e u s s' t t' t'' submitted
        missing credentials resubmitted found wrong =
      (
        login_handler-error (login repo hasher tokens clk token_ttl) r req unknown_email s s'
              submitted
              (login-unknown_email repo hasher tokens clk token_ttl req.email req.password e s s'
                missing credentials)
            ∙ rw refused_unknown,
        login_handler-error (login repo hasher tokens clk token_ttl) q other wrong_password t t''
              resubmitted
              (login-wrong_password repo hasher tokens clk token_ttl other.email other.password u t
                t' t'' found wrong)
            ∙ rw refused_wrong,
      )
