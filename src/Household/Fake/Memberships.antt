-- ===== src/Household/Fake/Memberships.antt =====
-- The memberships as they are read, and as a user who joins or leaves changes them.
use pfm_go.Common.{
  true, false, ◌≡◌, sym, ◌∙◌, ◌⊎◌, Option, none, some, ◌==◌, ==_iff, nat_eq, pair_eq, string_eq,
  arith, if◌then◌else◌,
}
use pfm_go.Types.{Uuid, role_admin}
use pfm_go.GoMap.{lookup, contains}
use pfm_go.GoMap.Laws.{lookup-insert, lookup-delete}
use pfm_go.Household.{Membership}
use pfm_go.Household.Logic
use pfm_go.Household.Fake.{
  FakeHouseholdRepository, MemberKey, is_removed, active, is_member, join, leave,
}
use pfm_go.Household.Fake.Guards.{IsAdmin}

-- The membership under a key: the one that is stored, unless the key is marked as removed.
abbrev pub membership : MemberKey → FakeHouseholdRepository → Option Membership
membership key f = elim (lookup key f.removed) [
  | none ↦ lookup key f.members
  | some removed ↦ elim removed [ true ↦ none | false ↦ lookup key f.members ]
]

-- The user has a membership in the household, with the role of an admin.
abbrev pub Administers : Uuid → Uuid → FakeHouseholdRepository → Type 0
Administers household_id user_id f =
    (m : Membership) × (membership (household_id, user_id) f ≡ some m) × (m.role ≡ role_admin)

pub active-membership :
    (key : MemberKey) (f : FakeHouseholdRepository) → active key f ≡ membership key f
unfolding active is_removed
active-membership key f = ground arith

pub IsAdmin-Administers :
    (household_id user_id : Uuid) (f : FakeHouseholdRepository)
    → Administers household_id user_id f
    → IsAdmin household_id user_id f
unfolding Logic.is_admin
IsAdmin-Administers household_id user_id f (m, there, admin) =
    (m, active-membership (household_id, user_id) f ∙ there, (==_iff m.role role_admin).1 admin)

pub Administers-IsAdmin :
    (household_id user_id : Uuid) (f : FakeHouseholdRepository)
    → IsAdmin household_id user_id f
    → Administers household_id user_id f
unfolding Logic.is_admin
Administers-IsAdmin household_id user_id f (m, there, admin) = (
  m,
  sym (active-membership (household_id, user_id) f) ∙ there,
  (==_iff m.role role_admin).0 admin,
)

pub is_member-cases :
    (key : MemberKey) (f : FakeHouseholdRepository)
    → ((is_member key f ≡ true) × (m : Membership) × (membership key f ≡ some m))
      ⊎ ((is_member key f ≡ false) × (membership key f ≡ none))
unfolding is_member is_removed contains
is_member-cases key f = ground arith

pub membership-join :
    (key k : MemberKey) (m : Membership) (f : FakeHouseholdRepository)
    → membership k (join key m f) ≡ (if key == k then some m else membership k f)
unfolding join
membership-join key k m f =
    ground (arith, lookup-insert key k m f.members, lookup-delete key k f.removed)

pub membership-leave :
    (key k : MemberKey) (f : FakeHouseholdRepository)
    → membership k (leave key f) ≡ (if key == k then none else membership k f)
unfolding leave
membership-leave key k f = ground (arith, lookup-insert key k true f.removed)
