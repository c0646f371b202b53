-- ===== src/Postgres/Settings.antt =====
-- internal/adapter/postgres/creditcard_settings_repo.go: the storage of credit card settings over
-- PostgreSQL.
use pfm_go.Common.{Option}
use pfm_go.Common.Int.{ℤ}
use pfm_go.Types.{Uuid, Time}
use pfm_go.Message.{Sentinel}
use pfm_go.Effect.{Action, pure, ◌>>=◌, annotate}
use pfm_go.CreditCard.{
  Settings, CreateInput, UpdateClosingDayInput, UpdateDueDayInput, UpdateLimitInput, Repository,
}
use pfm_go.Postgres.{
  DriverErrors, uuid_to_pg_uuid, pg_uuid_to_uuid, pg_timestamptz_to_time, int32, or_no_rows,
  or_violation,
}

-- The row that the queries return.
pub record SettingsRow : Type 0 where
  pub id : Uuid
  pub account_id : Uuid
  pub closing_day : ℤ
  pub due_day : ℤ
  pub limit_amount : ℤ
  pub version : ℤ
  pub created_at : Option Time
  pub updated_at : Option Time
  pub created_by : Option Uuid
  pub updated_by : Option Uuid

-- The generated queries, with their parameters in the order of the fields of their `Params`.
pub record Queries (S : Type 0) : Type 0 where
  pub create_credit_card_settings :
      Uuid → ℤ → ℤ → ℤ → Option Uuid → Option Uuid → Action S SettingsRow
  pub find_credit_card_settings_by_account_id : Uuid → Action S SettingsRow
  pub update_credit_card_closing_day : Uuid → ℤ → Option Uuid → ℤ → Action S SettingsRow
  pub update_credit_card_due_day : Uuid → ℤ → Option Uuid → ℤ → Action S SettingsRow
  pub update_credit_card_limit : Uuid → ℤ → Option Uuid → ℤ → Action S SettingsRow
  pub delete_credit_card_settings : Uuid → Option Uuid → Action S (Unit {0})

unfoldable settings_from_row : SettingsRow → Settings
unfolding pg_uuid_to_uuid pg_timestamptz_to_time
settings_from_row row = record {
  id = row.id;
  account_id = row.account_id;
  closing_day = row.closing_day;
  due_day = row.due_day;
  limit_amount = row.limit_amount;
  version = row.version;
  created_at = pg_timestamptz_to_time row.created_at;
  updated_at = pg_timestamptz_to_time row.updated_at;
  created_by = pg_uuid_to_uuid row.created_by;
  updated_by = pg_uuid_to_uuid row.updated_by;
}

module _ (errors : DriverErrors) {S : Type 0} (q : Queries S) where
  unfoldable pub create : Uuid → CreateInput → Uuid → Action S Settings
  unfolding or_violation uuid_to_pg_uuid int32 settings_from_row
  create account_id input caller_id = do
    row ←
        or_violation errors "credit card settings: create: %w"
          "credit_card_settings_account_id_active_idx" Sentinel.credit_card_settings_exists
          (q.create_credit_card_settings account_id (int32 input.closing_day) (int32 input.due_day)
            input.limit_amount (uuid_to_pg_uuid caller_id) (uuid_to_pg_uuid caller_id))
    pure (settings_from_row row)

  unfoldable pub find_by_account_id : Uuid → Action S Settings
  unfolding or_no_rows settings_from_row
  find_by_account_id account_id = do
    row ←
        or_no_rows errors "credit card settings: find by account: %w"
          Sentinel.credit_card_settings_not_found
          (q.find_credit_card_settings_by_account_id account_id)
    pure (settings_from_row row)

  unfoldable pub update_closing_day : Uuid → UpdateClosingDayInput → ℤ → Uuid → Action S Settings
  unfolding or_no_rows uuid_to_pg_uuid int32 settings_from_row
  update_closing_day account_id input expected_version caller_id = do
    row ←
        or_no_rows errors "credit card settings: update closing day: %w"
          Sentinel.credit_card_settings_version_conflict
          (q.update_credit_card_closing_day account_id (int32 input.closing_day)
            (uuid_to_pg_uuid caller_id) (int32 expected_version))
    pure (settings_from_row row)

  unfoldable pub update_due_day : Uuid → UpdateDueDayInput → ℤ → Uuid → Action S Settings
  unfolding or_no_rows uuid_to_pg_uuid int32 settings_from_row
  update_due_day account_id input expected_version caller_id = do
    row ←
        or_no_rows errors "credit card settings: update due day: %w"
          Sentinel.credit_card_settings_version_conflict
          (q.update_credit_card_due_day account_id (int32 input.due_day) (uuid_to_pg_uuid caller_id)
            (int32 expected_version))
    pure (settings_from_row row)

  unfoldable pub update_limit : Uuid → UpdateLimitInput → ℤ → Uuid → Action S Settings
  unfolding or_no_rows uuid_to_pg_uuid int32 settings_from_row
  update_limit account_id input expected_version caller_id = do
    row ←
        or_no_rows errors "credit card settings: update limit: %w"
          Sentinel.credit_card_settings_version_conflict
          (q.update_credit_card_limit account_id input.limit_amount (uuid_to_pg_uuid caller_id)
            (int32 expected_version))
    pure (settings_from_row row)

  unfoldable pub delete : Uuid → Uuid → Action S (Unit {0})
  unfolding uuid_to_pg_uuid
  delete account_id caller_id =
      annotate "credit card settings: delete: %w"
        (q.delete_credit_card_settings account_id (uuid_to_pg_uuid caller_id))

  abbrev pub credit_card_settings_repo : Repository S
  credit_card_settings_repo = record {
    find_by_account_id = find_by_account_id;
    create = create;
    update_closing_day = update_closing_day;
    update_due_day = update_due_day;
    update_limit = update_limit;
    delete = delete;
  }
