-- ===== src/Household/Logic.antt =====
-- internal/domain/household/household_logic.go: the operations of `HouseholdLogic`.
pub mod Ends
use pfm_go.Common.{String, Bool, true, false, not, List, [], ◌∷◌, ◌==◌, string_eq, if◌then◌else◌}
use pfm_go.Common.Int.{ℤ, pos, leb_ℤ}
use pfm_go.Common.Int64.{add64}
use pfm_go.Types.{Uuid, role_admin}
use pfm_go.Message.{Error, sentinel, wrapped, Sentinel, is, named}
use pfm_go.Effect.{Action, pure, fail, ◌>>=◌, ◌>>◌, on_error, attempt, annotate, fail_if}
use pfm_go.Validate.{text, required, min_len, max_len, field, new_result, Violations, check}
use pfm_go.Database.{Transactor}
use pfm_go.Household.{
  Household, Membership, CreateInput, UpdateNameInput, AddMemberInput, Repository,
}

abbrev pub name_result : String → Violations
name_result name =
    field (named "name") (text name) (required ∷ min_len 2 ∷ max_len 100 ∷ []) new_result

unfoldable pub is_admin : Membership → Bool
is_admin m = m.role == role_admin

-- `adminCount`, an int that the loop of `RemoveMember` adds to.
unfoldable pub count_admins : ℤ → List Membership → ℤ
count_admins n [] = n
count_admins n (m ∷ ms) = count_admins (if is_admin m then add64 n (pos 1) else n) ms

module _ {S : Type 0} (repo : Repository S) where
  -- The caller's membership, read and examined first by `AddMember` and `RemoveMember`.
  unfoldable pub require_admin : String → Uuid → Uuid → Action S (Unit {0})
  unfolding is_admin
  require_admin format household_id caller_id = do
    caller ← on_error (repo.find_membership household_id caller_id) λ e.
        if is e Sentinel.household_member_not_found
        then fail (wrapped format (sentinel Sentinel.household_not_admin))
        else fail (wrapped format e)
    fail_if (not (is_admin caller)) (wrapped format (sentinel Sentinel.household_not_admin))

  unfoldable pub find_by_id : Uuid → Action S Household
  find_by_id id = annotate "household logic: find by id: %w" (repo.find_by_id id)

  unfoldable pub list_for_user : Uuid → Action S (List Household)
  list_for_user user_id = annotate "household logic: list for user: %w" (repo.list_for_user user_id)

  unfoldable pub add_member : Uuid → AddMemberInput → Uuid → Action S Membership
  add_member household_id input caller_id = do
    require_admin "household logic: add member: %w" household_id caller_id
    annotate "household logic: add member: %w" (repo.add_member household_id input caller_id)

  -- The part of `RemoveMember` behind the lookup of the member to remove.
  unfoldable pub remove_found : Uuid → Uuid → Uuid → ℤ → Membership → Action S (Unit {0})
  unfolding is_admin
  remove_found household_id user_id caller_id admin_count target = do
    fail_if (if is_admin target then leb_ℤ admin_count (pos 1) else false)
        (wrapped "household logic: remove member: %w" (sentinel Sentinel.household_last_admin))
    annotate "household logic: remove member: %w"
        (repo.remove_member household_id user_id caller_id)

  -- A target that is no member is no error, the removal is then done.
  unfoldable pub remove_target : Uuid → Uuid → Uuid → ℤ → Action S (Unit {0})
  unfolding remove_found
  remove_target household_id user_id caller_id admin_count =
      attempt (repo.find_membership household_id user_id)
        (λ e.
          if is e Sentinel.household_member_not_found
          then pure tt
          else fail (wrapped "household logic: remove member: %w" e))
        (remove_found household_id user_id caller_id admin_count)

  unfoldable pub remove_member : Uuid → Uuid → Uuid → Action S (Unit {0})
  unfolding count_admins require_admin remove_target
  remove_member household_id user_id caller_id = do
    require_admin "household logic: remove member: %w" household_id caller_id
    members ← annotate "household logic: remove member: %w" (repo.list_members household_id)
    remove_target household_id user_id caller_id (count_admins (pos 0) members)

  unfoldable pub update_name : Uuid → UpdateNameInput → ℤ → Uuid → Action S Household
  update_name id input expected_version caller_id = do
    check (name_result input.name)
    annotate "household logic: update name: %w"
        (repo.update_name id input expected_version caller_id)

  unfoldable pub deactivate : Uuid → Uuid → Action S (Unit {0})
  deactivate id caller_id =
      annotate "household logic: deactivate: %w" (repo.deactivate id caller_id)

  unfoldable pub create : Transactor S → CreateInput → Uuid → Action S Household
  create tx input caller_id = do
    check (name_result input.name)
    annotate "household logic: create: %w" (tx.run_atomic (repo.create input caller_id))
