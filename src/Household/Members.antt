-- ===== src/Household/Members.antt =====
-- internal/domain/household/member_logic.go: the operation of `HouseholdMemberLogic`.
pub mod Steps
pub mod Inserts
pub mod Atomic
pub mod Creator
use pfm_go.Types.{Uuid, role_member}
use pfm_go.Effect.{Action, pure, ◌>>=◌, annotate}
use pfm_go.Database.{Transactor}
use pfm_go.Household.{Repository, UserCreator, NewUserInput, CreatedMember}

module _ {S : Type 0} (repo : Repository S) (users : UserCreator S) where
  -- The two steps, the function that the transactor runs.
  unfoldable pub create_and_add : Uuid → NewUserInput → Uuid → Action S CreatedMember
  create_and_add household_id input caller_id = do
    created ← annotate "household logic: create user step: %w" (users.create input caller_id)
    membership ← annotate "household logic: add member step: %w" (
        repo.add_member household_id (record { user_id = created.id; role = role_member })
          caller_id)
    pure (record { user = created; membership = membership })

  unfoldable pub create_household_user :
      Transactor S → Uuid → NewUserInput → Uuid → Action S CreatedMember
  unfolding create_and_add
  create_household_user tx household_id input caller_id =
      annotate "household logic: create household user: %w"
        (tx.run_atomic (create_and_add household_id input caller_id))
