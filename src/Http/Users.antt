-- ===== src/Http/Users.antt =====
-- internal/adapter/http/user.go and auth.go: the handlers of users and of the login.
pub mod Refusals
use pfm_go.Common.{String, none, some, [], ◌∷◌}
use pfm_go.Common.Int.{ℤ}
use pfm_go.Types.{Uuid}
use pfm_go.Message.{as_validation, named, msg_login_bad_request}
use pfm_go.Effect.{Action, pure, panic, attempt}
use pfm_go.Validate.{text, required, field, new_result, Violations, error}
use pfm_go.User.{User, UpdateProfileInput, ChangePasswordInput, LoginResult}
use pfm_go.Http.{Request, caller_id}
use pfm_go.Http.Wire.{Body, Codec, LoginRequest, Payload, UserResponse, LoginResponse}
use pfm_go.Http.Response.{
  Response, Handler, write_json, write_no_content, write_error, write_validation_error, bad_request,
  or_reply, with_path_id, with_body, answer, max_request_body_bytes,
}

module _ (codec : Codec) where
  unfoldable to_user_response : User → UserResponse
  to_user_response u = record {
    id = codec.uuid_string u.id;
    email = u.email;
    display_name = u.display_name;
    version = u.version;
    created_at = codec.rfc3339 u.created_at;
    updated_at = codec.rfc3339 u.updated_at;
  }

  unfoldable show_user : User → Response
  unfolding to_user_response write_json
  show_user u = write_json 200 (Payload.user (to_user_response u))

  unfoldable pub show_login : LoginResult → Response
  unfolding write_json
  show_login result = write_json 200 (
      Payload.login (record { token = result.token; expires_at = codec.rfc3339 result.expires_at }))

  abbrev pub credentials_result : String → String → Violations
  credentials_result email password =
      field (named "password") (text password) (required ∷ [])
        (field (named "email") (text email) (required ∷ []) new_result)

  module _ {S : Type 0} where
    unfoldable pub get_user_handler : (Uuid → Action S User) → Handler S
    unfolding with_path_id answer show_user
    get_user_handler find_by_id r =
        with_path_id codec "id" r λ id. answer codec (find_by_id id) show_user

    unfoldable pub change_password_handler :
        (Uuid → ChangePasswordInput → ℤ → Uuid → Action S User) → Handler S
    unfolding with_path_id with_body answer show_user caller_id
    change_password_handler change_password r = with_path_id codec "id" r λ id.
        with_body codec Body.change_password r λ req.
          answer codec
            (change_password id
              (record { old_password = req.old_password; new_password = req.new_password })
              req.version (caller_id r))
            show_user

    unfoldable pub deactivate_user_handler : (Uuid → Uuid → Action S (Unit {0})) → Handler S
    unfolding with_path_id answer caller_id
    deactivate_user_handler deactivate r =
        with_path_id codec "id" r
          λ id. answer codec (deactivate id (caller_id r)) (λ _. write_no_content)

    unfoldable pub update_profile_handler :
        (Uuid → UpdateProfileInput → ℤ → Uuid → Action S User) → Handler S
    unfolding with_path_id with_body answer show_user caller_id
    update_profile_handler update_profile r = with_path_id codec "id" r λ id.
        with_body codec Body.update_profile r λ req.
          answer codec
            (update_profile id (record { display_name = req.display_name }) req.version
              (caller_id r))
            show_user

    -- The reply to violations; `otherwise` is what follows an error that is no `ValidationError`.
    unfoldable pub or_violations :
        Violations → Action S Response → Action S Response → Action S Response
    unfolding write_validation_error error as_validation
    or_violations r otherwise k = elim (error r) [
      | none ↦ k
      | some e ↦ elim (as_validation e) [
        | none ↦ otherwise
        | some vs ↦ pure (write_validation_error codec vs)
      ]
    ]

    unfoldable pub login_handler : (String → String → Action S LoginResult) → Handler S
    unfolding or_reply bad_request or_violations write_error show_login
    login_handler login r =
        or_reply codec (codec.decode max_request_body_bytes Body.login r.body)
          (bad_request msg_login_bad_request)
          λ (req : LoginRequest).
            or_violations (credentials_result req.email req.password) (λ s. (panic, s))
              (attempt (login req.email req.password) (λ e. pure (write_error e))
                λ result. pure (show_login result))
