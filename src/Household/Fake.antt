-- ===== src/Household/Fake.antt =====
-- internal/adapter/postgres/fake_household_repo.go: the households' storage in memory.
pub mod Guards
pub mod Admins
pub mod Governed
pub mod Reach
pub mod Memberships
pub mod Counts
pub mod Changes
use pfm_go.Common.{
  ℕ, ◌+◌, String, Bool, true, false, not, Option, none, some, List, [], ◌∷◌, Equality, ◌==◌, nat_eq,
  pair_eq, if◌then◌else◌,
}
use pfm_go.Common.Int.{ℤ, pos, eqb_ℤ}
use pfm_go.Common.Int64.{add64}
use pfm_go.Types.{Uuid, uuid_nil, zero_time, status_active, role_admin, role_member}
use pfm_go.Message.{Error, sentinel, wrapped, Sentinel}
use pfm_go.Effect.{Result, ok, err, Action, pure, fail, gets, modify, or_fail, ◌>>=◌, ◌>>◌, fail_if}
use pfm_go.GoMap.{Map, lookup, contains, insert, delete}
use pfm_go.Household.{
  Household, Membership, CreateInput, UpdateNameInput, AddMemberInput, Repository,
}

-- `memberKey`: the household and the user
abbrev pub MemberKey : Type 0
MemberKey = Uuid × Uuid

-- `drawn` counts the calls of `uuid.New`; the other fields are the source's.
pub record FakeHouseholdRepository : Type 0 where
  pub by_id : Map Uuid Household
  pub members : Map MemberKey Membership
  pub removed : Map MemberKey Bool
  pub err : Option Error
  pub drawn : ℕ

abbrev pub new_fake_household_repository : FakeHouseholdRepository
new_fake_household_repository = record {
  by_id = [];
  members = [];
  removed = [];
  err = none;
  drawn = 0;
}

abbrev pub Fake : Type 0 → Type 0
Fake A = Action FakeHouseholdRepository A

unfoldable pub add_household : Uuid → Uuid → FakeHouseholdRepository → FakeHouseholdRepository
add_household id caller_id f = record f {
  by_id =
      insert id
        (record {
          id = id;
          name = "test household";
          status = "ACTIVE";
          version = pos 1;
          created_at = zero_time;
          updated_at = zero_time;
          created_by = caller_id;
          updated_by = caller_id;
        })
        f.by_id;
}

unfoldable pub add_member_direct :
    Uuid → Uuid → Uuid → FakeHouseholdRepository → FakeHouseholdRepository
add_member_direct household_id user_id inviter_id f = record f {
  members =
      insert (household_id, user_id)
        (record {
          household_id = household_id;
          user_id = user_id;
          role = "MEMBER";
          invited_by = inviter_id;
          joined_at = zero_time;
        })
        f.members;
}

unfoldable pub set_error : Option Error → FakeHouseholdRepository → FakeHouseholdRepository
set_error e f = record f { err = e }

-- `if f.err != nil { return …, f.err }`
unfoldable pub injected : Fake (Unit {0})
injected f = elim f.err [ none ↦ (ok tt, f) | some e ↦ (Result.err e, f) ]

-- `f.removed[key]`, which is false for a key that is not in the map
unfoldable pub is_removed : MemberKey → FakeHouseholdRepository → Bool
is_removed key f = elim (lookup key f.removed) [ none ↦ false | some b ↦ b ]

-- A membership that is stored and not soft-deleted.
unfoldable pub active : MemberKey → FakeHouseholdRepository → Option Membership
unfolding is_removed
active key f = if is_removed key f then none else lookup key f.members

unfoldable pub find_by_id : Uuid → Fake Household
unfolding injected
find_by_id id = do
  injected
  or_fail (← gets (λ f. lookup id f.by_id))
      (wrapped "household: find by id: %w" (sentinel Sentinel.household_not_found))

-- The loop of `ListForUser`.
unfoldable pub households_of :
    Uuid → FakeHouseholdRepository → Map MemberKey Membership → List Household
unfolding is_removed
households_of user_id f [] = []
households_of user_id f ((key, m) ∷ ms) =
    let rest = households_of user_id f ms in
    if m.user_id == user_id
    then if is_removed key f
      then rest
      else elim (lookup key.0 f.by_id) [ none ↦ rest | some h ↦ h ∷ rest ]
    else rest

unfoldable pub list_for_user : Uuid → Fake (List Household)
unfolding injected households_of
list_for_user user_id = do injected; gets (λ f. households_of user_id f f.members)

unfoldable pub find_membership : Uuid → Uuid → Fake Membership
unfolding injected active
find_membership household_id user_id = do
  injected
  or_fail (← gets (active (household_id, user_id)))
      (wrapped "household: find membership: %w" (sentinel Sentinel.household_member_not_found))

-- The loop of `ListMembers`.
unfoldable pub members_of :
    Uuid → FakeHouseholdRepository → Map MemberKey Membership → List Membership
unfolding is_removed
members_of household_id f [] = []
members_of household_id f ((key, m) ∷ ms) =
    let rest = members_of household_id f ms in
    if key.0 == household_id then if is_removed key f then rest else m ∷ rest else rest

unfoldable pub list_members : Uuid → Fake (List Membership)
unfolding injected members_of
list_members household_id = do injected; gets (λ f. members_of household_id f f.members)

unfoldable pub new_membership : Uuid → AddMemberInput → Uuid → Membership
new_membership household_id input caller_id = record {
  household_id = household_id;
  user_id = input.user_id;
  role = input.role;
  invited_by = caller_id;
  joined_at = zero_time;
}

-- The writes of `AddMember`: adding a member again clears the soft delete.
unfoldable pub join : MemberKey → Membership → FakeHouseholdRepository → FakeHouseholdRepository
join key m f = record f { members = insert key m f.members; removed = delete key f.removed }

-- `_, exists := f.members[key]; exists && !f.removed[key]`
unfoldable pub is_member : MemberKey → FakeHouseholdRepository → Bool
unfolding is_removed
is_member key f = if contains key f.members then not (is_removed key f) else false

unfoldable pub add_member : Uuid → AddMemberInput → Uuid → Fake Membership
unfolding injected is_member new_membership join
add_member household_id input caller_id = do
  injected
  fail_if (← gets (is_member (household_id, input.user_id)))
      (wrapped "household: add member: %w" (sentinel Sentinel.household_member_exists))
  modify (join (household_id, input.user_id) (new_membership household_id input caller_id))
  pure (new_membership household_id input caller_id)

unfoldable pub leave : MemberKey → FakeHouseholdRepository → FakeHouseholdRepository
leave key f = record f { removed = insert key true f.removed }

unfoldable pub remove_member : Uuid → Uuid → Uuid → Fake (Unit {0})
unfolding injected leave
remove_member household_id user_id _ = do injected; modify (leave (household_id, user_id))

unfoldable pub with_name : UpdateNameInput → Uuid → Household → Household
with_name input caller_id h = record h {
  name = input.name;
  version = add64 h.version (pos 1);
  updated_by = caller_id;
}

unfoldable pub update_name : Uuid → UpdateNameInput → ℤ → Uuid → Fake Household
unfolding injected with_name
update_name id input expected_version caller_id = do
  injected
  h ←
      or_fail (← gets (λ f. lookup id f.by_id))
        (wrapped "household: update name: %w" (sentinel Sentinel.household_not_found))
  fail_if (not (eqb_ℤ h.version expected_version))
      (wrapped "household: update name: %w" (sentinel Sentinel.household_version_conflict))
  modify (λ f. record f { by_id = insert id (with_name input caller_id h) f.by_id })
  pure (with_name input caller_id h)

unfoldable pub deactivate : Uuid → Uuid → Fake (Unit {0})
unfolding injected
deactivate id _ = do injected; modify (λ f. record f { by_id = delete id f.by_id })

-- The founding membership of a new household.
unfoldable pub founder : Household → Uuid → Membership
founder h caller_id = record {
  household_id = h.id;
  user_id = caller_id;
  role = role_admin;
  invited_by = uuid_nil;
  joined_at = zero_time;
}

-- The writes of `Create`: the household, and its first member, who is its admin.
unfoldable pub found : Household → Uuid → FakeHouseholdRepository → FakeHouseholdRepository
unfolding founder
found h caller_id f = record f {
  by_id = insert h.id h f.by_id;
  members = insert (h.id, caller_id) (founder h caller_id) f.members;
  drawn = f.drawn + 1;
}

-- `uuid.New` is not part of the program.
module _ (uuid_new : ℕ → Uuid) where
  unfoldable pub new_household : CreateInput → Uuid → ℕ → Household
  new_household input caller_id drawn = record {
    id = uuid_new drawn;
    name = input.name;
    status = status_active;
    version = pos 1;
    created_at = zero_time;
    updated_at = zero_time;
    created_by = caller_id;
    updated_by = caller_id;
  }

  unfoldable pub create : CreateInput → Uuid → Fake Household
  unfolding injected new_household found
  create input caller_id = do
    injected
    h ← gets (λ f. new_household input caller_id f.drawn)
    modify (found h caller_id)
    pure h

  abbrev pub fake_household_repository : Repository FakeHouseholdRepository
  fake_household_repository = record {
    find_by_id = find_by_id;
    list_for_user = list_for_user;
    find_membership = find_membership;
    list_members = list_members;
    create = create;
    add_member = add_member;
    remove_member = remove_member;
    update_name = update_name;
    deactivate = deactivate;
  }
