-- ===== src/Tests/Versions.antt =====
-- The conditional updates of internal/adapter/postgres over a single row, at concrete versions.
use pfm_go.Common.{◌^◌, ◌≡◌, refl, false, true, Bool, none, [], if◌then◌else◌}
use pfm_go.Common.Int.{ℤ, pos, ◌+ℤ◌, eqb_ℤ}
use pfm_go.Types.{Uuid, status_active}
use pfm_go.Message.{Error, foreign}
use pfm_go.Effect.{Action, ok, err}
use pfm_go.User.{UpdateProfileInput}
use pfm_go.Account
use pfm_go.Household
use pfm_go.Postgres.{DriverErrors}
use pfm_go.Postgres.Users
use pfm_go.Postgres.Households
use pfm_go.Postgres.Accounts
use pfm_go.Postgres.Versions.{update-int32}

abbrev no_rows : Error
no_rows = foreign 1

abbrev is_no_rows : Error → Bool
is_no_rows (foreign n) = true
is_no_rows _ = false

abbrev errors : DriverErrors
errors = record { is_no_rows = is_no_rows; as_pg_error = λ e. none }

-- The store is the version of the row; an update with another version finds no row.
abbrev updated : {A : Type 0} → (ℤ → A) → ℤ → Action ℤ A
updated row v s = if eqb_ℤ v s then (ok (row (s +ℤ pos 1)), s +ℤ pos 1) else (err no_rows, s)

abbrev missing : {A : Type 0} → Action ℤ A
missing s = (err no_rows, s)

abbrev user_row : Uuid → ℤ → Users.UserRow
user_row id v = record {
  id = id;
  email = "ann@x.org";
  display_name = "Ann";
  password_hash = "hash";
  version = v;
  created_at = none;
  updated_at = none;
  created_by = none;
  updated_by = none;
}

abbrev household_row : Uuid → ℤ → Households.HouseholdRow
household_row id v = record {
  id = id;
  name = "Home";
  status = status_active;
  version = v;
  created_at = none;
  updated_at = none;
  created_by = none;
  updated_by = none;
}

abbrev account_row : Uuid → ℤ → Accounts.AccountRow
account_row id v = record {
  id = id;
  household_id = 7;
  name = "Cash";
  account_type = "CHECKING";
  currency_code = "USD";
  balance = pos 0;
  status = status_active;
  version = v;
  created_at = none;
  updated_at = none;
  created_by = none;
  updated_by = none;
}

abbrev users : Users.Queries ℤ
users = record {
  create_user = λ _ _ _ _ _. missing;
  find_user_by_id = λ _. missing;
  find_user_by_email = λ _. missing;
  update_user_profile = λ id _ _ v. updated (user_row id) v;
  change_user_password = λ id _ _ v. updated (user_row id) v;
  any_user_exists = λ s. (ok true, s);
  deactivate_user = λ _ _. missing;
}

abbrev households : Households.Queries ℤ
households = record {
  create_household = λ _ _ _. missing;
  create_household_member = λ _ _ _ _. missing;
  find_household_by_id = λ _. missing;
  list_households_for_user = λ _ s. (ok [], s);
  find_membership = λ _ _. missing;
  list_members = λ _ s. (ok [], s);
  remove_household_member = λ _ _. missing;
  update_household_name = λ id _ _ v. updated (household_row id) v;
  deactivate_household = λ _ _. missing;
}

abbrev accounts : Accounts.Queries ℤ
accounts = record {
  create_account = λ _ _ _ _ _ _. missing;
  find_account_by_id = λ _. missing;
  list_accounts_for_household = λ _ s. (ok [], s);
  update_account_name = λ id _ _ v. updated (account_row id) v;
  update_account_balance = λ id _ _ v. updated (account_row id) v;
  deactivate_account = λ _ _. missing;
}

update-int32_example :
    let later = pos 4 +ℤ pos (2 ^ 32) in
    ((input : UpdateProfileInput)
      → Users.update_profile errors users 5 input later 3
        ≡ Users.update_profile errors users 5 input (pos 4) 3)
    × ((input : Household.UpdateNameInput)
        → Households.update_name errors households 5 input later 3
          ≡ Households.update_name errors households 5 input (pos 4) 3)
    × ((input : Account.UpdateNameInput)
        → Accounts.update_name errors accounts 5 input later 3
          ≡ Accounts.update_name errors accounts 5 input (pos 4) 3)
    × ((input : Account.UpdateBalanceInput)
        → Accounts.update_balance errors accounts 5 input later 3
          ≡ Accounts.update_balance errors accounts 5 input (pos 4) 3)
update-int32_example = update-int32 errors users households accounts 5 (pos 4) 3

-- A version that the row never had updates it.
stale_version_updates :
    (Accounts.update_balance errors accounts 5
      (record { balance = pos 9 })
      (pos 4294967300)
      3
      (pos 4)).1
    ≡ pos 5
unfolding Accounts.update_balance ◌+ℤ◌
stale_version_updates = refl
