-- ===== src/Postgres/Users.antt =====
-- internal/adapter/postgres/user_repo.go: the users' storage over PostgreSQL.
use pfm_go.Common.{String, Bool, Option}
use pfm_go.Common.Int.{ℤ, pos}
use pfm_go.Types.{Uuid, Time, zero_time, uuid_nil}
use pfm_go.Message.{Sentinel}
use pfm_go.Effect.{Action, pure, ◌>>=◌, annotate}
use pfm_go.User.{User, RegisterInput, UpdateProfileInput, Repository}
use pfm_go.Postgres.{
  DriverErrors, uuid_to_pg_uuid, pg_uuid_to_uuid, pg_timestamptz_to_time, int32, or_no_rows,
  or_violation,
}

-- The row that the queries return.
pub record UserRow : Type 0 where
  pub id : Uuid
  pub email : String
  pub display_name : String
  pub password_hash : String
  pub version : ℤ
  pub created_at : Option Time
  pub updated_at : Option Time
  pub created_by : Option Uuid
  pub updated_by : Option Uuid

-- `FindUserByEmailRow`
pub record LoginRow : Type 0 where
  pub id : Uuid
  pub email : String
  pub password_hash : String

-- The generated queries, with their parameters in the order of the fields of their `Params`.
pub record Queries (S : Type 0) : Type 0 where
  pub create_user : String → String → String → Option Uuid → Option Uuid → Action S UserRow
  pub find_user_by_id : Uuid → Action S UserRow
  pub find_user_by_email : String → Action S LoginRow
  pub update_user_profile : Uuid → String → Option Uuid → ℤ → Action S UserRow
  pub change_user_password : Uuid → String → Option Uuid → ℤ → Action S UserRow
  pub any_user_exists : Action S Bool
  pub deactivate_user : Uuid → Option Uuid → Action S (Unit {0})

unfoldable pub user_from_row : UserRow → User
unfolding pg_uuid_to_uuid pg_timestamptz_to_time
user_from_row row = record {
  id = row.id;
  email = row.email;
  display_name = row.display_name;
  password_hash = row.password_hash;
  version = row.version;
  created_at = pg_timestamptz_to_time row.created_at;
  updated_at = pg_timestamptz_to_time row.updated_at;
  created_by = pg_uuid_to_uuid row.created_by;
  updated_by = pg_uuid_to_uuid row.updated_by;
}

-- The fields that the query by e-mail does not read keep their zero values.
unfoldable user_from_login_row : LoginRow → User
user_from_login_row row = record {
  id = row.id;
  email = row.email;
  display_name = "";
  password_hash = row.password_hash;
  version = pos 0;
  created_at = zero_time;
  updated_at = zero_time;
  created_by = uuid_nil;
  updated_by = uuid_nil;
}

module _ (errors : DriverErrors) {S : Type 0} (q : Queries S) where
  unfoldable pub create : RegisterInput → String → Uuid → Action S User
  unfolding or_violation uuid_to_pg_uuid user_from_row
  create input password_hash caller_id = do
    row ←
        or_violation errors "user: create: %w" "users_email_unique_active" Sentinel.user_email_taken
          (q.create_user input.email password_hash input.display_name (uuid_to_pg_uuid caller_id)
            (uuid_to_pg_uuid caller_id))
    pure (user_from_row row)

  unfoldable pub find_by_id : Uuid → Action S User
  unfolding or_no_rows user_from_row
  find_by_id id = do
    row ← or_no_rows errors "user: find by id: %w" Sentinel.user_not_found (q.find_user_by_id id)
    pure (user_from_row row)

  unfoldable pub find_by_email : String → Action S User
  unfolding or_no_rows user_from_login_row
  find_by_email email = do
    row ←
        or_no_rows errors "user: find by email: %w" Sentinel.login_invalid_credentials
          (q.find_user_by_email email)
    pure (user_from_login_row row)

  unfoldable pub update_profile : Uuid → UpdateProfileInput → ℤ → Uuid → Action S User
  unfolding or_no_rows uuid_to_pg_uuid int32 user_from_row
  update_profile id input expected_version caller_id = do
    row ← or_no_rows errors "user: update profile: %w" Sentinel.user_version_conflict (
        q.update_user_profile id input.display_name (uuid_to_pg_uuid caller_id)
          (int32 expected_version))
    pure (user_from_row row)

  unfoldable pub change_password : Uuid → String → ℤ → Uuid → Action S User
  unfolding or_no_rows uuid_to_pg_uuid int32 user_from_row
  change_password id new_hash expected_version caller_id = do
    row ←
        or_no_rows errors "user: change password: %w" Sentinel.user_version_conflict
          (q.change_user_password id new_hash (uuid_to_pg_uuid caller_id) (int32 expected_version))
    pure (user_from_row row)

  unfoldable pub any_exists : Action S Bool
  any_exists = annotate "user: any exists: %w" q.any_user_exists

  unfoldable pub deactivate : Uuid → Uuid → Action S (Unit {0})
  unfolding uuid_to_pg_uuid
  deactivate id caller_id =
      annotate "user: deactivate: %w" (q.deactivate_user id (uuid_to_pg_uuid caller_id))

  abbrev pub user_repo : Repository S
  user_repo = record {
    find_by_id = find_by_id;
    find_by_email = find_by_email;
    create = create;
    update_profile = update_profile;
    change_password = change_password;
    deactivate = deactivate;
  }
