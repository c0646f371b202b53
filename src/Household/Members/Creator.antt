-- ===== src/Household/Members/Creator.antt =====
-- cmd/pfm/main.go: `householdUserCreator`, through which the members' logic registers users.
use pfm_go.Types.{Uuid}
use pfm_go.Effect.{Action, pure, ◌>>=◌}
use pfm_go.User.{Repository, PasswordHasher}
use pfm_go.User.Logic.{register}
use pfm_go.Household.{UserCreator, NewUserInput, CreatedUser}

module _ {S : Type 0} (repo : Repository S) (hasher : PasswordHasher S) where
  unfoldable pub create : NewUserInput → Uuid → Action S CreatedUser
  create input caller_id = do
    u ←
        register repo hasher
          (record {
            email = input.email;
            display_name = input.display_name;
            password = input.password;
          })
          caller_id
    pure (record { id = u.id; email = u.email; display_name = u.display_name })

  abbrev pub household_user_creator : UserCreator S
  household_user_creator = record { create = create }
