-- ===== src/User/Fake.antt =====
-- internal/adapter/postgres/fake_user_repo.go: the users' storage in memory, with one index by
-- e-mail and one by identifier, each of which holds the whole user.
pub mod Index
pub mod Reach
pub mod Outcomes
pub mod Passwords
use pfm_go.Common.{ℕ, ◌+◌, String, not, Option, none, some, [], nat_eq, string_eq, if◌then◌else◌}
use pfm_go.Common.Int.{ℤ, pos, eqb_ℤ}
use pfm_go.Common.Int64.{add64}
use pfm_go.Types.{Uuid, zero_time}
use pfm_go.Message.{Error, sentinel, wrapped, Sentinel}
use pfm_go.Effect.{Result, ok, err, Action, pure, gets, modify, or_fail, ◌>>=◌, ◌>>◌, fail_if}
use pfm_go.GoMap.{Map, lookup, contains, insert, delete}
use pfm_go.User.{User, RegisterInput, UpdateProfileInput, Repository}

-- `drawn` counts the calls of `uuid.New`; the other fields are the source's.
pub record FakeUserRepository : Type 0 where
  pub by_email : Map String User
  pub by_id : Map Uuid User
  pub err : Option Error
  pub drawn : ℕ

abbrev pub new_fake_user_repository : FakeUserRepository
new_fake_user_repository = record { by_email = []; by_id = []; err = none; drawn = 0 }

unfoldable pub set_error : Option Error → FakeUserRepository → FakeUserRepository
set_error e f = record f { err = e }

abbrev pub Fake : Type 0 → Type 0
Fake A = Action FakeUserRepository A

-- `if f.err != nil { return …, f.err }`
unfoldable pub injected : Fake (Unit {0})
injected f = elim f.err [ none ↦ (ok tt, f) | some e ↦ (Result.err e, f) ]

unfoldable pub find_by_id : Uuid → Fake User
unfolding injected
find_by_id id = do
  injected
  or_fail (← gets (λ f. lookup id f.by_id))
      (wrapped "user: find by id: %w" (sentinel Sentinel.user_not_found))

-- What `UpdateProfile` and `ChangePassword` write into the user.
unfoldable pub with_profile : UpdateProfileInput → Uuid → User → User
with_profile input caller_id u = record u {
  display_name = input.display_name;
  version = add64 u.version (pos 1);
  updated_by = caller_id;
}

unfoldable pub with_password : String → Uuid → User → User
with_password new_hash caller_id u = record u {
  password_hash = new_hash;
  version = add64 u.version (pos 1);
  updated_by = caller_id;
}

-- `strings.ToLower` and `uuid.New` are not part of the program.
module _ (uuid_new : ℕ → Uuid) (to_lower : String → String) where
  -- The two writes by which a user enters both indexes.
  unfoldable pub put : Uuid → User → FakeUserRepository → FakeUserRepository
  put id u f = record f {
    by_email = insert (to_lower u.email) u f.by_email;
    by_id = insert id u f.by_id;
  }

  unfoldable pub add : User → FakeUserRepository → FakeUserRepository
  unfolding put
  add u f =
      let v = if eqb_ℤ u.version (pos 0) then record u { version = pos 1 } else u in put v.id v f

  unfoldable pub find_by_email : String → Fake User
  unfolding injected
  find_by_email email = do
    injected
    or_fail (← gets (λ f. lookup (to_lower email) f.by_email))
        (wrapped "user: find by email: %w" (sentinel Sentinel.login_invalid_credentials))

  unfoldable pub new_user : RegisterInput → String → Uuid → ℕ → User
  new_user input password_hash caller_id drawn = record {
    id = uuid_new drawn;
    email = input.email;
    display_name = input.display_name;
    password_hash = password_hash;
    version = pos 1;
    created_at = zero_time;
    updated_at = zero_time;
    created_by = caller_id;
    updated_by = caller_id;
  }

  unfoldable pub store : User → FakeUserRepository → FakeUserRepository
  unfolding put
  store u f = put u.id u (record f { drawn = f.drawn + 1 })

  unfoldable pub create : RegisterInput → String → Uuid → Fake User
  unfolding injected new_user store
  create input password_hash caller_id = do
    injected
    fail_if (← gets (λ f. contains (to_lower input.email) f.by_email))
        (wrapped "user: create: %w" (sentinel Sentinel.user_email_taken))
    u ← gets (λ f. new_user input password_hash caller_id f.drawn)
    modify (store u)
    pure u

  -- What the two updates share: they differ in the fields that they change.
  unfoldable pub update : String → (User → User) → Uuid → ℤ → Fake User
  unfolding injected put
  update format change id expected_version = do
    injected
    u ←
        or_fail (← gets (λ f. lookup id f.by_id))
          (wrapped format (sentinel Sentinel.user_not_found))
    fail_if (not (eqb_ℤ u.version expected_version))
        (wrapped format (sentinel Sentinel.user_version_conflict))
    modify (put id (change u))
    pure (change u)

  unfoldable pub update_profile : Uuid → UpdateProfileInput → ℤ → Uuid → Fake User
  unfolding update with_profile
  update_profile id input expected_version caller_id =
      update "user: update profile: %w" (with_profile input caller_id) id expected_version

  unfoldable pub change_password : Uuid → String → ℤ → Uuid → Fake User
  unfolding update with_password
  change_password id new_hash expected_version caller_id =
      update "user: change password: %w" (with_password new_hash caller_id) id expected_version

  -- The deletes of `Deactivate`.
  unfoldable pub remove : Uuid → User → FakeUserRepository → FakeUserRepository
  remove id u f = record f {
    by_email = delete (to_lower u.email) f.by_email;
    by_id = delete id f.by_id;
  }

  unfoldable pub deactivate : Uuid → Uuid → Fake (Unit {0})
  unfolding injected remove
  deactivate id _ = do
    injected
    found ← gets (λ f. lookup id f.by_id)
    elim found [ none ↦ pure tt | some u ↦ modify (remove id u) ]

  abbrev pub fake_user_repository : Repository FakeUserRepository
  fake_user_repository = record {
    find_by_id = find_by_id;
    find_by_email = find_by_email;
    create = create;
    update_profile = update_profile;
    change_password = change_password;
    deactivate = deactivate;
  }
