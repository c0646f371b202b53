-- ===== src/Postgres/Versions.antt =====
-- The versions that the updates of internal/adapter/postgres compare: 32 bits of the given one.
use pfm_go.Common.{◌-◌, ◌^◌, ◌≡◌, arith}
use pfm_go.Common.Int.{ℤ, pos, negsuc, ◌+ℤ◌, ◌≤ℤ◌}
use pfm_go.Types.{Uuid}
use pfm_go.User.{UpdateProfileInput}
use pfm_go.Household
use pfm_go.Account
use pfm_go.Postgres.{DriverErrors, int32}
use pfm_go.Postgres.Users
use pfm_go.Postgres.Households
use pfm_go.Postgres.Accounts

-- The values that an `int32` can hold.
abbrev IsInt32 : ℤ → Type 0
IsInt32 a = (negsuc (2 ^ 31 - 1) ≤ℤ a) × (a ≤ℤ pos (2 ^ 31 - 1))

int32-IsInt32 : (v : ℤ) → IsInt32 (int32 v)
unfolding int32
int32-IsInt32 (pos n) = ground arith
int32-IsInt32 (negsuc n) = ground arith

int32_of_IsInt32 : (v : ℤ) → IsInt32 v → int32 v ≡ v
unfolding int32
int32_of_IsInt32 (pos n) h = ground arith
int32_of_IsInt32 (negsuc n) h = ground arith

int32_periodic : (v : ℤ) → int32 (v +ℤ pos (2 ^ 32)) ≡ int32 v
unfolding int32 ◌+ℤ◌
int32_periodic (pos n) = ground arith
int32_periodic (negsuc n) = ground arith

-- The updates of profiles, of the names of households and accounts and of balances do the same for
-- an expected version and for that version plus 2 ^ 32, whatever the queries are.
pub update-int32 :
    (errors : DriverErrors) {S : Type 0} (users : Users.Queries S)
    (households : Households.Queries S) (accounts : Accounts.Queries S) (id : Uuid) (v : ℤ)
    (caller_id : Uuid)
    → let later = v +ℤ pos (2 ^ 32) in
      ((input : UpdateProfileInput)
        → Users.update_profile errors users id input later caller_id
          ≡ Users.update_profile errors users id input v caller_id)
      × ((input : Household.UpdateNameInput)
          → Households.update_name errors households id input later caller_id
            ≡ Households.update_name errors households id input v caller_id)
      × ((input : Account.UpdateNameInput)
          → Accounts.update_name errors accounts id input later caller_id
            ≡ Accounts.update_name errors accounts id input v caller_id)
      × ((input : Account.UpdateBalanceInput)
          → Accounts.update_balance errors accounts id input later caller_id
            ≡ Accounts.update_balance errors accounts id input v caller_id)
unfolding Users.update_profile Households.update_name Accounts.update_name Accounts.update_balance
update-int32 errors users households accounts id v caller_id = (
  λ input. rw (int32_periodic v),
  λ input. rw (int32_periodic v),
  λ input. rw (int32_periodic v),
  λ input. rw (int32_periodic v),
)
