-- ===== src/Tests/Login.antt =====
-- internal/adapter/http/auth.go over internal/domain/user/login_logic.go at concrete inputs.
use pfm_go.Common.{Bool, true, false, ◌≡◌, refl, ◌==◌, string_eq, nat_eq, if◌then◌else◌}
use pfm_go.Common.Int.{pos}
use pfm_go.Message.{sentinel, Sentinel, is}
use pfm_go.Effect.{ok, err, pure, fail}
use pfm_go.Validate.{field, required}
use pfm_go.User.{User, Repository, PasswordHasher, TokenService, Clock}
use pfm_go.User.Login.{login}
use pfm_go.Http.Wire.{LoginRequest}
use pfm_go.Http.Users.{login_handler}
use pfm_go.Http.Users.Refusals.{Submits, refused, refusals_look_alike}
use pfm_go.Tests.Web.{codec, stranger}

abbrev credentials : LoginRequest
credentials = record { email = "ann@pfm.org"; password = "long enough" }

submitted : Submits codec stranger credentials
unfolding field required
submitted = (refl, refl)

abbrev ann : User
ann = record {
  id = 3;
  email = "ann@pfm.org";
  display_name = "Ann";
  password_hash = "hash";
  version = pos 1;
  created_at = 0;
  updated_at = 0;
  created_by = 1;
  updated_by = 1;
}

-- A storage that knows the user in one state only.
abbrev repo : Repository Bool
repo = record {
  find_by_id = λ _. fail (sentinel Sentinel.user_not_found);
  find_by_email = λ _ known.
      (if known then ok ann else err (sentinel Sentinel.login_invalid_credentials), known);
  create = λ _ _ _. fail (sentinel Sentinel.user_not_found);
  update_profile = λ _ _ _ _. fail (sentinel Sentinel.user_not_found);
  change_password = λ _ _ _ _. fail (sentinel Sentinel.user_not_found);
  deactivate = λ _ _. fail (sentinel Sentinel.user_not_found);
}

abbrev hasher : PasswordHasher Bool
hasher = record { hash = λ p. pure p; verify = λ p h. pure (p == h) }

abbrev tokens : TokenService Bool
tokens = record { issue = λ _ _. pure "token"; validate = λ _. pure 3 }

abbrev clk : Clock Bool
clk = record { now = pure 0 }

refusals_look_alike_example :
    (login_handler codec (login repo hasher tokens clk 10) stranger false ≡ (ok refused, false))
    × (login_handler codec (login repo hasher tokens clk 10) stranger true ≡ (ok refused, true))
unfolding is
refusals_look_alike_example =
    refusals_look_alike codec repo hasher tokens clk 10 stranger stranger credentials credentials
      (sentinel Sentinel.login_invalid_credentials) ann false false true true true submitted refl
      refl submitted refl refl
