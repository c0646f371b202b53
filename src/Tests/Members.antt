-- ===== src/Tests/Members.antt =====
-- internal/domain/household/member_logic.go with the storages and the transactions of PostgreSQL at
-- concrete inputs: a database that shows e-mails and roles.
use pfm_go.Common.{
  Bool, true, false, String, none, some, [], ◌≡◌, refl, ◌⊎◌, inl, ◌==◌, ◌&&◌, nat_eq, arith,
  if◌then◌else◌,
}
use pfm_go.Common.Int.{pos}
use pfm_go.Types.{Uuid, role_member}
use pfm_go.Message.{foreign}
use pfm_go.Effect.{Action, Result, ok, err, pure, IsFailure}
use pfm_go.Validate.{check, field, required, min_len, max_len}
use pfm_go.User.{PasswordHasher}
use pfm_go.User.Logic.{register}
use pfm_go.Household.{NewUserInput, CreatedMember}
use pfm_go.Household.Members.{create_and_add, create_household_user}
use pfm_go.Household.Members.Creator.{create, household_user_creator}
use pfm_go.Household.Members.Inserts.{Tables, Inserts, AreHidden}
use pfm_go.Household.Members.Atomic.{create_household_user-IsAtomic}
use pfm_go.Database.Postgres.{Driver, IsDurable, IsClosing, postgres_transactor, run_atomic, finish}
use pfm_go.Postgres.{DriverErrors, or_violation}
use pfm_go.Postgres.Users
use pfm_go.Postgres.Users.{user_repo}
use pfm_go.Postgres.Households
use pfm_go.Postgres.Households.{household_repo}

-- What the running transaction has, what others see, and whether a transaction is open.
pub record Store : Type 0 where
  pub working : Tables
  pub published : Tables
  pub is_open : Bool

abbrev ended : Tables → Store
ended t = record { working = t; published = t; is_open = false }

abbrev driver : Driver Store
driver = record {
  begin = λ s. (ok tt, record { working = s.published; published = s.published; is_open = true });
  commit = λ s. (ok tt, ended s.working);
  rollback = λ s. (ok tt, ended s.published);
}

abbrev with_user : String → Store → Store
with_user email s = record s {
  working = record {
    email_of = λ i. if i == 9 then some email else s.working.email_of i;
    role_of = s.working.role_of;
  };
}

abbrev with_member : Uuid → Uuid → String → Store → Store
with_member household_id user_id role s = record s {
  working = record {
    email_of = s.working.email_of;
    role_of = λ h i. if h == household_id && i == user_id then some role else s.working.role_of h i;
  };
}

abbrev missing : {A : Type 0} → Action Store A
missing s = (err (foreign 1), s)

abbrev errors : DriverErrors
errors = record { is_no_rows = λ e. true; as_pg_error = λ e. none }

abbrev users : Users.Queries Store
users = record {
  create_user = λ email hash name by by' s. (
    ok (record {
      id = 9;
      email = email;
      display_name = name;
      password_hash = hash;
      version = pos 1;
      created_at = none;
      updated_at = none;
      created_by = by;
      updated_by = by';
    }),
    with_user email s,
  );
  find_user_by_id = λ _. missing;
  find_user_by_email = λ _. missing;
  update_user_profile = λ _ _ _ _. missing;
  change_user_password = λ _ _ _ _. missing;
  any_user_exists = λ s. (ok true, s);
  deactivate_user = λ _ _. missing;
}

abbrev households : Households.Queries Store
households = record {
  create_household = λ _ _ _. missing;
  create_household_member = λ household_id user_id role by s. (
    ok (record {
      household_id = household_id;
      user_id = user_id;
      role = role;
      invited_by = by;
      joined_at = none;
    }),
    with_member household_id user_id role s,
  );
  find_household_by_id = λ _. missing;
  list_households_for_user = λ _ s. (ok [], s);
  find_membership = λ _ _. missing;
  list_members = λ _ s. (ok [], s);
  remove_household_member = λ _ _. missing;
  update_household_name = λ _ _ _ _. missing;
  deactivate_household = λ _ _. missing;
}

abbrev hasher : PasswordHasher Store
hasher = record { hash = λ p. pure p; verify = λ p h. pure true }

rows_inserted : Inserts users households (λ s. s.working)
rows_inserted = record {
  user_inserted = λ email hash name by by' s row done. ground arith;
  member_inserted = λ household_id user_id role by s row done. (ground arith, refl);
}

rows_hidden : AreHidden users households hasher (λ s. s.published)
rows_hidden = record {
  user_hidden = λ _ _ _ _ _ _. refl;
  member_hidden = λ _ _ _ _ _. refl;
  hash_hidden = λ _ _. refl;
}

driver-IsDurable : IsDurable driver (λ s. s.published)
driver-IsDurable = record {
  begin_keeps = λ s. refl;
  rollback_keeps = λ s. refl;
  commit_keeps = λ s. inl refl;
}

driver-IsClosing : IsClosing driver (λ s. s.is_open)
driver-IsClosing = record {
  begin_opens = λ s. inl refl;
  commit_closes = λ s. refl;
  rollback_closes = λ s. refl;
}

abbrev ann : NewUserInput
ann = record { email = "ann@x.org"; display_name = "Ann"; password = "correct horse" }

abbrev start : Store
start = ended (record { email_of = λ i. none; role_of = λ h i. none })

abbrev added : Result CreatedMember × Store
added =
    create_household_user (household_repo errors households)
      (household_user_creator (user_repo errors users) hasher) (postgres_transactor driver false)
      100 ann 3 start

create_household_user-IsAtomic_example :
    (added.1.is_open ≡ false)
    × (((c : CreatedMember) × (added.0 ≡ ok c)
          × (added.1.published.email_of c.user.id ≡ some "ann@x.org")
          × (added.1.published.role_of 100 c.user.id ≡ some role_member))
        ⊎ (IsFailure added.0 × (added.1.published ≡ start.published)))
create_household_user-IsAtomic_example =
    create_household_user-IsAtomic errors users households hasher driver (λ s. s.working)
      (λ s. s.published) (λ s. s.is_open) rows_inserted rows_hidden driver-IsDurable
      (λ s done. refl) driver-IsClosing 100 ann 3 start refl

-- Others see the new user and the membership.
ann_is_seen :
    (added.1.published.email_of 9 ≡ some "ann@x.org")
    × (added.1.published.role_of 100 9 ≡ some role_member)
unfolding create_household_user create_and_add create register run_atomic finish or_violation
    Users.create Households.add_member check field required min_len max_len
ann_is_seen = (refl, refl)
