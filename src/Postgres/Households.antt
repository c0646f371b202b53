-- ===== src/Postgres/Households.antt =====
-- internal/adapter/postgres/household_repo.go: the households' storage over PostgreSQL.
use pfm_go.Common.{String, Option, List, map}
use pfm_go.Common.Int.{ℤ}
use pfm_go.Types.{Uuid, Time, uuid_nil, role_admin}
use pfm_go.Message.{Sentinel}
use pfm_go.Effect.{Action, pure, ◌>>=◌, ◌>>◌, annotate}
use pfm_go.Household.{
  Household, Membership, CreateInput, UpdateNameInput, AddMemberInput, Repository,
}
use pfm_go.Postgres.{
  DriverErrors, uuid_to_pg_uuid, pg_uuid_to_uuid, pg_timestamptz_to_time, int32, or_no_rows,
  or_violation,
}

pub record HouseholdRow : Type 0 where
  pub id : Uuid
  pub name : String
  pub status : String
  pub version : ℤ
  pub created_at : Option Time
  pub updated_at : Option Time
  pub created_by : Option Uuid
  pub updated_by : Option Uuid

pub record MembershipRow : Type 0 where
  pub household_id : Uuid
  pub user_id : Uuid
  pub role : String
  pub invited_by : Option Uuid
  pub joined_at : Option Time

-- The generated queries, with their parameters in the order of the fields of their `Params`.
pub record Queries (S : Type 0) : Type 0 where
  pub create_household : String → Option Uuid → Option Uuid → Action S HouseholdRow
  pub create_household_member : Uuid → Uuid → String → Option Uuid → Action S MembershipRow
  pub find_household_by_id : Uuid → Action S HouseholdRow
  pub list_households_for_user : Uuid → Action S (List HouseholdRow)
  pub find_membership : Uuid → Uuid → Action S MembershipRow
  pub list_members : Uuid → Action S (List MembershipRow)
  pub remove_household_member : Uuid → Uuid → Action S (Unit {0})
  pub update_household_name : Uuid → String → Option Uuid → ℤ → Action S HouseholdRow
  pub deactivate_household : Uuid → Option Uuid → Action S (Unit {0})

unfoldable household_from_row : HouseholdRow → Household
unfolding pg_uuid_to_uuid pg_timestamptz_to_time
household_from_row row = record {
  id = row.id;
  name = row.name;
  status = row.status;
  version = row.version;
  created_at = pg_timestamptz_to_time row.created_at;
  updated_at = pg_timestamptz_to_time row.updated_at;
  created_by = pg_uuid_to_uuid row.created_by;
  updated_by = pg_uuid_to_uuid row.updated_by;
}

unfoldable membership_from_row : MembershipRow → Membership
unfolding pg_uuid_to_uuid pg_timestamptz_to_time
membership_from_row row = record {
  household_id = row.household_id;
  user_id = row.user_id;
  role = row.role;
  invited_by = pg_uuid_to_uuid row.invited_by;
  joined_at = pg_timestamptz_to_time row.joined_at;
}

module _ (errors : DriverErrors) {S : Type 0} (q : Queries S) where
  -- The founder is added as an admin whom nobody invited.
  unfoldable pub create : CreateInput → Uuid → Action S Household
  unfolding uuid_to_pg_uuid household_from_row
  create input caller_id = do
    row ←
        annotate "household: create: %w"
          (q.create_household input.name (uuid_to_pg_uuid caller_id) (uuid_to_pg_uuid caller_id))
    annotate "household: create: %w"
        (q.create_household_member row.id caller_id role_admin (uuid_to_pg_uuid uuid_nil))
    pure (household_from_row row)

  unfoldable pub find_by_id : Uuid → Action S Household
  unfolding or_no_rows household_from_row
  find_by_id id = do
    row ←
        or_no_rows errors "household: find by id: %w" Sentinel.household_not_found
          (q.find_household_by_id id)
    pure (household_from_row row)

  unfoldable pub list_for_user : Uuid → Action S (List Household)
  unfolding household_from_row
  list_for_user user_id = do
    rows ← annotate "household: list for user: %w" (q.list_households_for_user user_id)
    pure (map household_from_row rows)

  unfoldable pub find_membership : Uuid → Uuid → Action S Membership
  unfolding or_no_rows membership_from_row
  find_membership household_id user_id = do
    row ←
        or_no_rows errors "household: find membership: %w" Sentinel.household_member_not_found
          (q.find_membership household_id user_id)
    pure (membership_from_row row)

  unfoldable pub list_members : Uuid → Action S (List Membership)
  unfolding membership_from_row
  list_members household_id = do
    rows ← annotate "household: list members: %w" (q.list_members household_id)
    pure (map membership_from_row rows)

  unfoldable pub add_member : Uuid → AddMemberInput → Uuid → Action S Membership
  unfolding or_violation uuid_to_pg_uuid membership_from_row
  add_member household_id input caller_id = do
    row ←
        or_violation errors "household: add member: %w" "household_members_pkey"
          Sentinel.household_member_exists
          (q.create_household_member household_id input.user_id input.role
            (uuid_to_pg_uuid caller_id))
    pure (membership_from_row row)

  unfoldable pub remove_member : Uuid → Uuid → Uuid → Action S (Unit {0})
  remove_member household_id user_id caller_id =
      annotate "household: remove member: %w" (q.remove_household_member household_id user_id)

  unfoldable pub update_name : Uuid → UpdateNameInput → ℤ → Uuid → Action S Household
  unfolding or_no_rows uuid_to_pg_uuid int32 household_from_row
  update_name id input expected_version caller_id = do
    row ←
        or_no_rows errors "household: update name: %w" Sentinel.household_version_conflict (
          q.update_household_name id input.name (uuid_to_pg_uuid caller_id)
            (int32 expected_version))
    pure (household_from_row row)

  unfoldable pub deactivate : Uuid → Uuid → Action S (Unit {0})
  unfolding uuid_to_pg_uuid
  deactivate id caller_id =
      annotate "household: deactivate: %w" (q.deactivate_household id (uuid_to_pg_uuid caller_id))

  abbrev pub household_repo : Repository S
  household_repo = record {
    find_by_id = find_by_id;
    list_for_user = list_for_user;
    find_membership = find_membership;
    list_members = list_members;
    create = create;
    add_member = add_member;
    remove_member = remove_member;
    update_name = update_name;
    deactivate = deactivate;
  }
