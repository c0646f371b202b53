-- ===== src/Household/Fake/Guards.antt =====
-- The guards of `AddMember` and `RemoveMember` over the storage in memory: who may change the
-- members of a household.
use pfm_go.Common.{
  ℕ, true, false, ◌≡◌, refl, ◌⊎◌, inl, inr, none, some, nat_eq, pair_eq, Bool-cases, Option-cases,
  arith, ◌∙◌,
}
use pfm_go.Common.Int.{ℤ, pos, leb_ℤ}
use pfm_go.Types.{Uuid}
use pfm_go.Message.{Error, sentinel, wrapped, Sentinel, is}
use pfm_go.Effect.{Result, ok}
use pfm_go.Household.{Membership, AddMemberInput, Repository}
use pfm_go.Household.Logic
use pfm_go.Household.Logic.Ends.{
  not_admin, last_admin, add_member-IsRefused, add_member-IsAllowed, remove_member-IsRefused,
  remove_member-IsAllowed, remove_target-gone, remove_target-IsLast, remove_target-others,
  IsAllowed, IsRefused,
}
use pfm_go.Household.Fake.{
  FakeHouseholdRepository, fake_household_repository, active, is_member, join, leave,
  new_membership, members_of, find_membership, list_members, add_member, remove_member,
}

-- The user is an active member of the household, as its admin.
abbrev pub IsAdmin : Uuid → Uuid → FakeHouseholdRepository → Type 0
IsAdmin household_id user_id f =
    (m : Membership) × (active (household_id, user_id) f ≡ some m) × (Logic.is_admin m ≡ true)

abbrev pub no_membership : Error
no_membership =
    wrapped "household: find membership: %w" (sentinel Sentinel.household_member_not_found)

abbrev pub member_exists : Error
member_exists = wrapped "household: add member: %w" (sentinel Sentinel.household_member_exists)

pub find_membership_found :
    (household_id user_id : Uuid) (f : FakeHouseholdRepository) (m : Membership)
    → f.err ≡ none
    → active (household_id, user_id) f ≡ some m
    → find_membership household_id user_id f ≡ (ok m, f)
unfolding find_membership
find_membership_found household_id user_id f m working there = rw (working, there)

pub find_membership_missing :
    (household_id user_id : Uuid) (f : FakeHouseholdRepository)
    → f.err ≡ none
    → active (household_id, user_id) f ≡ none
    → find_membership household_id user_id f ≡ (Result.err no_membership, f)
unfolding find_membership
find_membership_missing household_id user_id f working gone = rw (working, gone)

list_members_all :
    (household_id : Uuid) (f : FakeHouseholdRepository)
    → f.err ≡ none
    → list_members household_id f ≡ (ok (members_of household_id f f.members), f)
unfolding list_members
list_members_all household_id f working = rw working

remove_member_leaves :
    (household_id user_id caller_id : Uuid) (f : FakeHouseholdRepository)
    → f.err ≡ none
    → remove_member household_id user_id caller_id f ≡ (ok tt, leave (household_id, user_id) f)
unfolding remove_member
remove_member_leaves household_id user_id caller_id f working = rw working

add_member_exists :
    (household_id : Uuid) (input : AddMemberInput) (caller_id : Uuid) (f : FakeHouseholdRepository)
    → f.err ≡ none
    → is_member (household_id, input.user_id) f ≡ true
    → add_member household_id input caller_id f ≡ (Result.err member_exists, f)
unfolding add_member
add_member_exists household_id input caller_id f working there = rw (working, there)

add_member_joins :
    (household_id : Uuid) (input : AddMemberInput) (caller_id : Uuid) (f : FakeHouseholdRepository)
    → f.err ≡ none
    → is_member (household_id, input.user_id) f ≡ false
    → add_member household_id input caller_id f ≡ (
      ok (new_membership household_id input caller_id),
      join (household_id, input.user_id) (new_membership household_id input caller_id) f,
    )
unfolding add_member
add_member_joins household_id input caller_id f working gone = rw (working, gone)

module _ (uuid_new : ℕ → Uuid) where
  abbrev pub repo : Repository FakeHouseholdRepository
  repo = fake_household_repository uuid_new

  pub admin_IsAllowed :
      (household_id caller_id : Uuid) (f : FakeHouseholdRepository)
      → f.err ≡ none
      → IsAdmin household_id caller_id f
      → IsAllowed repo f household_id caller_id
  admin_IsAllowed household_id caller_id f working (m, there, admin) =
      (m, find_membership_found household_id caller_id f m working there, admin)

  pub other_IsRefused :
      (household_id caller_id : Uuid) (f : FakeHouseholdRepository)
      → f.err ≡ none
      → ¬ IsAdmin household_id caller_id f
      → IsRefused repo f household_id caller_id
  unfolding is
  other_IsRefused household_id caller_id f working h =
      elim (Option-cases (active (household_id, caller_id) f)) [
        | inl gone ↦
            inr (no_membership, find_membership_missing household_id caller_id f working gone, refl)
        | inr (m, there) ↦ inl (
          m,
          find_membership_found household_id caller_id f m working there,
          elim (Bool-cases (Logic.is_admin m)) [
            | inl admin ↦ absurd (h (m, there, admin))
            | inr other ↦ other
          ],
        )
      ]

  -- With no injected error, whoever is not an active admin of a household cannot add to it or remove from it: both calls
  -- fail with the error that says so, and the storage is as before.
  pub only_admins :
      (household_id caller_id : Uuid) (f : FakeHouseholdRepository)
      → f.err ≡ none
      → ¬ IsAdmin household_id caller_id f
      → (input : AddMemberInput) (user_id : Uuid)
      → (Logic.add_member repo household_id input caller_id f
          ≡ (Result.err (not_admin "household logic: add member: %w"), f))
        × (Logic.remove_member repo household_id user_id caller_id f
            ≡ (Result.err (not_admin "household logic: remove member: %w"), f))
  only_admins household_id caller_id f working h input user_id =
      let refused = other_IsRefused household_id caller_id f working h in
      (
        add_member-IsRefused repo f household_id input caller_id refused,
        remove_member-IsRefused repo f household_id user_id caller_id refused,
      )

  pub add_member_outcomes :
      (household_id : Uuid) (input : AddMemberInput) (caller_id : Uuid)
      (f : FakeHouseholdRepository)
      → f.err ≡ none
      → IsAdmin household_id caller_id f
      → (((is_member (household_id, input.user_id) f ≡ true)
            × (Logic.add_member repo household_id input caller_id f
                ≡ (Result.err (wrapped "household logic: add member: %w" member_exists), f)))
          ⊎ ((is_member (household_id, input.user_id) f ≡ false)
              × (Logic.add_member repo household_id input caller_id f ≡ (
                ok (new_membership household_id input caller_id),
                join (household_id, input.user_id) (new_membership household_id input caller_id) f,
              ))))
  add_member_outcomes household_id input caller_id f working h =
      let goes_on =
        add_member-IsAllowed repo f household_id input caller_id
          (admin_IsAllowed household_id caller_id f working h) in
      elim (Bool-cases (is_member (household_id, input.user_id) f)) [
        | inl there ↦
            let e = add_member_exists household_id input caller_id f working there in
            inl (there, ground arith)
        | inr gone ↦
            let e = add_member_joins household_id input caller_id f working gone in
            inr (gone, ground arith)
      ]

  -- The number of admins that `RemoveMember` counts.
  abbrev pub admins : Uuid → FakeHouseholdRepository → ℤ
  admins household_id f = Logic.count_admins (pos 0) (members_of household_id f f.members)

  -- A member who is no admin, or not the only one.
  abbrev pub IsRemovable : Uuid → Uuid → FakeHouseholdRepository → Type 0
  IsRemovable household_id user_id f =
      (m : Membership) × (active (household_id, user_id) f ≡ some m)
      × ((Logic.is_admin m ≡ false) ⊎ (leb_ℤ (admins household_id f) (pos 1) ≡ false))

  pub remove_member_outcomes :
      (household_id user_id caller_id : Uuid) (f : FakeHouseholdRepository)
      → f.err ≡ none
      → IsAdmin household_id caller_id f
      → ((active (household_id, user_id) f ≡ none)
          × (Logic.remove_member repo household_id user_id caller_id f ≡ (ok tt, f)))
        ⊎ (IsAdmin household_id user_id f
            × (leb_ℤ (admins household_id f) (pos 1) ≡ true)
            × (Logic.remove_member repo household_id user_id caller_id f
                ≡ (Result.err last_admin, f)))
        ⊎ (IsRemovable household_id user_id f
            × (Logic.remove_member repo household_id user_id caller_id f
                ≡ (ok tt, leave (household_id, user_id) f)))
  unfolding is
  remove_member_outcomes household_id user_id caller_id f working h =
      let goes_on =
        remove_member-IsAllowed repo f household_id user_id caller_id
          (members_of household_id f f.members) (admin_IsAllowed household_id caller_id f working h)
          (list_members_all household_id f working) in
      let leaves = remove_member_leaves household_id user_id caller_id f working in
      elim (Option-cases (active (household_id, user_id) f)) [
        | inl gone ↦ inl (
          gone,
          goes_on
              ∙ remove_target-gone repo f household_id user_id caller_id (admins household_id f)
                  no_membership (find_membership_missing household_id user_id f working gone) refl,
        )
        | inr (m, there) ↦
            let read = find_membership_found household_id user_id f m working there in
            elim (Bool-cases (Logic.is_admin m)) [
              | inr other ↦
                  let e =
                    remove_target-others repo f household_id user_id caller_id
                      (admins household_id f) m read (inl other) in
                  inr (inr ((m, there, inl other), ground arith))
              | inl admin ↦ elim (Bool-cases (leb_ℤ (admins household_id f) (pos 1))) [
                | inl last ↦ inr (
                    inl (
                      (m, there, admin),
                      last,
                      goes_on
                          ∙ remove_target-IsLast repo f household_id user_id caller_id
                              (admins household_id f) m read (admin, last),
                    ))
                | inr many ↦
                    let e =
                      remove_target-others repo f household_id user_id caller_id
                        (admins household_id f) m read (inr many) in
                    inr (inr ((m, there, inr many), ground arith))
              ]
            ]
      ]
