-- ===== src/User/Logic.antt =====
-- internal/domain/user/user_logic.go: the operations of `UserLogic`.
pub mod Ends
use pfm_go.Common.{String, not, [], ◌∷◌}
use pfm_go.Common.Int.{ℤ}
use pfm_go.Types.{Uuid}
use pfm_go.Message.{sentinel, wrapped, Sentinel, is, named}
use pfm_go.Effect.{Action, fail, ◌>>=◌, ◌>>◌, on_error, annotate, fail_if}
use pfm_go.Validate.{text, required, min_len, max_len, field, new_result, Violations, check}
use pfm_go.User.{
  User, RegisterInput, UpdateProfileInput, ChangePasswordInput, Repository, PasswordHasher,
}
use pfm_go.Common.{if◌then◌else◌}

abbrev profile_result : String → Violations → Violations
profile_result name r =
    field (named "display_name") (text name) (required ∷ min_len 2 ∷ max_len 100 ∷ []) r

abbrev pub register_result : RegisterInput → Violations
register_result input = field (named "password") (text input.password) (required ∷ min_len 8 ∷ []) (
    profile_result input.display_name
      (field (named "email") (text input.email) (required ∷ []) new_result))

abbrev pub passwords_result : ChangePasswordInput → Violations
passwords_result input =
    field (named "new_password") (text input.new_password) (required ∷ min_len 8 ∷ [])
      (field (named "old_password") (text input.old_password) (required ∷ []) new_result)

module _ {S : Type 0} (repo : Repository S) where
  unfoldable pub find_by_id : Uuid → Action S User
  find_by_id id = annotate "user logic: find by id: %w" (repo.find_by_id id)

  unfoldable pub update_profile : Uuid → UpdateProfileInput → ℤ → Uuid → Action S User
  update_profile id input expected_version caller_id = do
    check (profile_result input.display_name new_result)
    annotate "user logic: update profile: %w"
        (repo.update_profile id input expected_version caller_id)

  unfoldable pub deactivate : Uuid → Uuid → Action S (Unit {0})
  deactivate id caller_id = annotate "user logic: deactivate: %w" (repo.deactivate id caller_id)

  module _ (hasher : PasswordHasher S) where
    unfoldable pub register : RegisterInput → Uuid → Action S User
    register input caller_id = do
      check (register_result input)
      hash ← annotate "user logic: register: %w" (hasher.hash input.password)
      on_error (repo.create input hash caller_id) λ e.
          if is e Sentinel.user_email_taken
          then fail (wrapped "user logic: register: %w" (sentinel Sentinel.user_email_taken))
          else fail (wrapped "user logic: register: %w" e)

    unfoldable pub change_password : Uuid → ChangePasswordInput → ℤ → Uuid → Action S User
    change_password id input expected_version caller_id = do
      check (passwords_result input)
      current ← annotate "user logic: change password: %w" (repo.find_by_id id)
      verified ←
          annotate "user logic: change password: %w"
            (hasher.verify input.old_password current.password_hash)
      fail_if (not verified)
          (wrapped "user logic: change password: %w" (sentinel Sentinel.login_invalid_credentials))
      new_hash ← annotate "user logic: change password: %w" (hasher.hash input.new_password)
      annotate "user logic: change password: %w"
          (repo.change_password id new_hash expected_version caller_id)
