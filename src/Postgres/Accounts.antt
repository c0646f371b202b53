-- ===== src/Postgres/Accounts.antt =====
-- internal/adapter/postgres/account_repo.go: the accounts' storage over PostgreSQL.
use pfm_go.Common.{String, Option, List, map, if◌then◌else◌}
use pfm_go.Common.Int.{ℤ}
use pfm_go.Types.{Uuid, Time}
use pfm_go.Message.{Sentinel, sentinel, wrapped}
use pfm_go.Effect.{Action, pure, fail, on_error, ◌>>=◌, annotate}
use pfm_go.Account.{Account, CreateInput, UpdateNameInput, UpdateBalanceInput, Repository}
use pfm_go.Postgres.{
  DriverErrors, uuid_to_pg_uuid, pg_uuid_to_uuid, pg_timestamptz_to_time, int32,
  is_unique_violation, or_no_rows, or_violation,
}

-- The row that the queries return.
pub record AccountRow : Type 0 where
  pub id : Uuid
  pub household_id : Uuid
  pub name : String
  pub account_type : String
  pub currency_code : String
  pub balance : ℤ
  pub status : String
  pub version : ℤ
  pub created_at : Option Time
  pub updated_at : Option Time
  pub created_by : Option Uuid
  pub updated_by : Option Uuid

-- The generated queries, with their parameters in the order of the fields of their `Params`.
pub record Queries (S : Type 0) : Type 0 where
  pub create_account :
      Uuid → String → String → String → Option Uuid → Option Uuid → Action S AccountRow
  pub find_account_by_id : Uuid → Action S AccountRow
  pub list_accounts_for_household : Uuid → Action S (List AccountRow)
  pub update_account_name : Uuid → String → Option Uuid → ℤ → Action S AccountRow
  pub update_account_balance : Uuid → ℤ → Option Uuid → ℤ → Action S AccountRow
  pub deactivate_account : Uuid → Option Uuid → Action S (Unit {0})

unfoldable account_from_row : AccountRow → Account
unfolding pg_uuid_to_uuid pg_timestamptz_to_time
account_from_row row = record {
  id = row.id;
  household_id = row.household_id;
  name = row.name;
  account_type = row.account_type;
  currency_code = row.currency_code;
  balance = row.balance;
  status = row.status;
  version = row.version;
  created_at = pg_timestamptz_to_time row.created_at;
  updated_at = pg_timestamptz_to_time row.updated_at;
  created_by = pg_uuid_to_uuid row.created_by;
  updated_by = pg_uuid_to_uuid row.updated_by;
}

module _ (errors : DriverErrors) {S : Type 0} (q : Queries S) where
  unfoldable pub create : Uuid → CreateInput → Uuid → Action S Account
  unfolding or_violation uuid_to_pg_uuid account_from_row
  create household_id input caller_id = do
    row ←
        or_violation errors "account: create: %w" "accounts_name_unique_active"
          Sentinel.account_name_taken
          (q.create_account household_id input.name input.account_type input.currency_code
            (uuid_to_pg_uuid caller_id) (uuid_to_pg_uuid caller_id))
    pure (account_from_row row)

  unfoldable pub find_by_id : Uuid → Action S Account
  unfolding or_no_rows account_from_row
  find_by_id id = do
    row ←
        or_no_rows errors "account: find by id: %w" Sentinel.account_not_found
          (q.find_account_by_id id)
    pure (account_from_row row)

  unfoldable pub list_for_household : Uuid → Action S (List Account)
  unfolding account_from_row
  list_for_household household_id = do
    rows ← annotate "account: list for household: %w" (q.list_accounts_for_household household_id)
    pure (map account_from_row rows)

  unfoldable pub update_name : Uuid → UpdateNameInput → ℤ → Uuid → Action S Account
  unfolding is_unique_violation uuid_to_pg_uuid int32 account_from_row
  update_name id input expected_version caller_id = do
    row ←
        on_error
          (q.update_account_name id input.name (uuid_to_pg_uuid caller_id) (int32 expected_version))
          λ e.
            if errors.is_no_rows e
            then fail
                (wrapped "account: update name: %w" (sentinel Sentinel.account_version_conflict))
            else if is_unique_violation errors e "accounts_name_unique_active"
            then fail (wrapped "account: update name: %w" (sentinel Sentinel.account_name_taken))
            else fail (wrapped "account: update name: %w" e)
    pure (account_from_row row)

  unfoldable pub update_balance : Uuid → UpdateBalanceInput → ℤ → Uuid → Action S Account
  unfolding or_no_rows uuid_to_pg_uuid int32 account_from_row
  update_balance id input expected_version caller_id = do
    row ← or_no_rows errors "account: update balance: %w" Sentinel.account_version_conflict (
        q.update_account_balance id input.balance (uuid_to_pg_uuid caller_id)
          (int32 expected_version))
    pure (account_from_row row)

  unfoldable pub deactivate : Uuid → Uuid → Action S (Unit {0})
  unfolding uuid_to_pg_uuid
  deactivate id caller_id =
      annotate "account: deactivate: %w" (q.deactivate_account id (uuid_to_pg_uuid caller_id))

  abbrev pub account_repo : Repository S
  account_repo = record {
    find_by_id = find_by_id;
    list_for_household = list_for_household;
    create = create;
    update_name = update_name;
    update_balance = update_balance;
    deactivate = deactivate;
  }
