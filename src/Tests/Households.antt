-- ===== src/Tests/Households.antt =====
-- internal/domain/household and internal/adapter/postgres/fake_household_repo.go at concrete
-- inputs.
use pfm_go.Common.{
  ◌≢◌, ◌<◌, ◌^◌, ◌==◌, length, arith, if◌then◌else◌, ℕ, ◌+◌, ◌≡◌, refl, ◌⊎◌, none, some, nat_eq,
  pair_eq,
}
use pfm_go.Types.{Uuid, role_member, role_admin}
use pfm_go.Message.{wrapped}
use pfm_go.Effect.{Result, ok}
use pfm_go.GoMap.{lookup, insert}
use pfm_go.Validate.{check, field, required, min_len, max_len}
use pfm_go.Database.{fake_transactor, fake_run_atomic}
use pfm_go.Household.{Membership, CreateInput, AddMemberInput}
use pfm_go.Household.Logic
use pfm_go.Household.Logic.Ends.{not_admin, last_admin}
use pfm_go.Household.Fake.{
  MemberKey, FakeHouseholdRepository, new_fake_household_repository, create, new_household, active,
}
use pfm_go.Household.Fake.Guards.{repo, member_exists, only_admins}
use pfm_go.Household.Fake.Admins.{HasAdmin}
use pfm_go.Household.Fake.Memberships.{membership, Administers}
use pfm_go.Household.Fake.Changes.{add_member-Joins, remove_member-Leaves}
use pfm_go.GoMap.Laws.{IsMap}
use pfm_go.Household.Fake.Reach.{Reachable, Step, every_household-HasAdmin}

abbrev id_of : ℕ → Uuid
id_of n = n + 100

abbrev start : FakeHouseholdRepository
start = new_fake_household_repository

abbrev home : CreateInput
home = record { name = "Home" }

-- User 3 creates a household.
abbrev created : FakeHouseholdRepository
created = (Logic.create (repo id_of) fake_transactor home 3 start).1

created_reached : Reachable id_of created
unfolding lookup
created_reached =
    Reachable.continues Reachable.initial (Step.creates home 3 start (λ u. (refl, refl)))

home_stored : lookup 100 created.by_id ≡ some (new_household id_of home 3 0)
unfolding Logic.create check fake_run_atomic create lookup insert field required min_len max_len
home_stored = refl

every_household-HasAdmin_example : HasAdmin 100 created
every_household-HasAdmin_example =
    every_household-HasAdmin id_of created created_reached 100 (new_household id_of home 3 0)
      home_stored

abbrev guest : AddMemberInput
guest = record { user_id = 4; role = role_member }

only_admins_example :
    (Logic.add_member (repo id_of) 100 guest 4 start
      ≡ (Result.err (not_admin "household logic: add member: %w"), start))
    × (Logic.remove_member (repo id_of) 100 3 4 start
        ≡ (Result.err (not_admin "household logic: remove member: %w"), start))
unfolding active lookup
only_admins_example = only_admins id_of 100 4 start refl (λ (m, there, admin). cc) guest 3

created_works : created.err ≡ none
unfolding Logic.create check fake_run_atomic create field required min_len max_len
created_works = refl

founder-Administers : Administers 100 3 created
unfolding Logic.create check fake_run_atomic create lookup insert field required min_len max_len
founder-Administers = (_, refl, refl)

abbrev guest_membership : Membership
guest_membership = record {
  household_id = 100;
  user_id = 4;
  role = role_member;
  invited_by = 3;
  joined_at = 0;
}

add_member-Joins_example :
    let r = Logic.add_member (repo id_of) 100 guest 3 created in
    ((n : Membership) × (membership (100, 4) created ≡ some n)
      × (r ≡ (Result.err (wrapped "household logic: add member: %w" member_exists), created)))
    ⊎ ((membership (100, 4) created ≡ none)
        × (r.0 ≡ ok guest_membership)
        × (r.1.by_id ≡ created.by_id)
        × ((k : MemberKey)
            → membership k r.1
              ≡ (if (100, 4) == k then some guest_membership else membership k created)))
add_member-Joins_example =
    add_member-Joins id_of 100 guest 3 created created_works founder-Administers

created_IsMap : IsMap created.members
unfolding Logic.create check fake_run_atomic create lookup insert field required min_len max_len
created_IsMap = (refl, tt)

few_members : length created.members < 2 ^ 63
unfolding Logic.create check fake_run_atomic create lookup insert field required min_len max_len
few_members = ground arith

remove_member-Leaves_example :
    let r = Logic.remove_member (repo id_of) 100 3 3 created in
    ((membership (100, 3) created ≡ none) × (r ≡ (ok tt, created)))
    ⊎ (Administers 100 3 created
        × ((other_id : Uuid) → Administers 100 other_id created → other_id ≡ 3)
        × (r ≡ (Result.err last_admin, created)))
    ⊎ ((m : Membership) × (membership (100, 3) created ≡ some m)
        × ((m.role ≢ role_admin)
            ⊎ ((other_id : Uuid) × (other_id ≢ 3) × Administers 100 other_id created))
        × (r.0 ≡ ok tt)
        × (r.1.by_id ≡ created.by_id)
        × ((k : MemberKey)
            → membership k r.1 ≡ (if (100, 3) == k then none else membership k created)))
remove_member-Leaves_example =
    remove_member-Leaves id_of 100 3 3 created created_works created_IsMap few_members
      founder-Administers
