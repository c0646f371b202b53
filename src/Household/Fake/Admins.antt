-- ===== src/Household/Fake/Admins.antt =====
-- The admins of a household over the storage in memory, as `RemoveMember` counts them.
use pfm_go.Common.{
  ℕ, suc, ◌+◌, ◌<◌, ◌≤◌, ◌^◌, true, false, ◌≡◌, ◌≢◌, sym, ap, subst, ◌∙◌, ◌⊎◌, inl, inr, none, some,
  List, [], ◌∷◌, length, ◌==◌, ==_iff, ==_refl, nat_eq, pair_eq, Bool-cases, arith, if◌then◌else◌,
}
use pfm_go.Common.Int.{pos, leb_ℤ, ◌+ℤ◌}
use pfm_go.Common.Int64.{add64, add64_exact}
use pfm_go.Types.{Uuid}
use pfm_go.GoMap.{Map, lookup, contains}
use pfm_go.GoMap.Laws.{lookup-insert, lookup-delete, IsMap}
use pfm_go.Household.{Membership}
use pfm_go.Household.Logic
use pfm_go.Household.Fake.{
  FakeHouseholdRepository, MemberKey, is_removed, active, is_member, join, leave, members_of,
}
use pfm_go.Household.Fake.Guards.{IsAdmin, admins}

-- The admins of a list, as a number without bound.
abbrev pub admin_count : List Membership → ℕ
admin_count [] = 0
admin_count (m ∷ ms) = let rest = admin_count ms in if Logic.is_admin m then suc rest else rest

add64_pos : (n k : ℕ) → n + k < 2 ^ 63 → add64 (pos n) (pos k) ≡ pos (n + k)
unfolding ◌+ℤ◌
add64_pos n k h =
    let e : pos n +ℤ pos k ≡ pos (n + k) = ground arith in
    add64_exact (pos n) (pos k) (ground arith) ∙ e

pub count_admins_exact :
    (n : ℕ) (ms : List Membership)
    → n + length ms < 2 ^ 63
    → Logic.count_admins (pos n) ms ≡ pos (n + admin_count ms)
unfolding Logic.count_admins
count_admins_exact n [] h = ground arith
count_admins_exact n (m ∷ ms) h = elim (Bool-cases (Logic.is_admin m)) [
  | inl admin ↦
      let e : add64 (pos n) (pos 1) ≡ pos (n + 1) = add64_pos n 1 (omega arith) in
      let rest = count_admins_exact (n + 1) ms (omega arith) in
      let same : n + 1 + admin_count ms ≡ n + suc (admin_count ms) = omega arith in
      rw (admin, e) (rest ∙ ap pos same)
  | inr other ↦ let rest = count_admins_exact n ms (omega arith) in rw other rest
]

pub length-members_of :
    (household_id : Uuid) (f : FakeHouseholdRepository) (ms : Map MemberKey Membership)
    → length (members_of household_id f ms) ≤ length ms
unfolding members_of
length-members_of household_id f [] = omega arith
length-members_of household_id f ((key, m) ∷ ms) =
    ground (arith, length-members_of household_id f ms)

-- A key of the map at which an active admin of the household is stored.
abbrev pub IsAdminAt :
    Uuid → FakeHouseholdRepository → Map MemberKey Membership → MemberKey → Type 0
IsAdminAt household_id f ms key =
    (m : Membership) × (lookup key ms ≡ some m)
    × (key.0 ≡ household_id)
    × (is_removed key f ≡ false)
    × (Logic.is_admin m ≡ true)

-- What is stored under another key than the first is found behind it.
later :
    (household_id : Uuid) (f : FakeHouseholdRepository) (j key : MemberKey) (m : Membership)
    (ms : Map MemberKey Membership)
    → lookup j ms ≡ none
    → IsAdminAt household_id f ms key
    → IsAdminAt household_id f ((j, m) ∷ ms) key × (key ≢ j)
unfolding lookup
later household_id f j key m ms fresh (n, there, here, present, admin) =
    let differs : key ≢ j = λ e. (let h = subst (λ k. lookup k ms ≡ some n) e there in cc) in
    let apart : (j == key) ≡ false = ground (arith, ==_iff j key) in
    ((n, rw apart there, here, present, admin), differs)

first :
    (household_id : Uuid) (f : FakeHouseholdRepository) (j : MemberKey) (m : Membership)
    (ms : Map MemberKey Membership)
    → (j.0 == household_id) ≡ true
    → is_removed j f ≡ false
    → Logic.is_admin m ≡ true
    → IsAdminAt household_id f ((j, m) ∷ ms) j
unfolding lookup
first household_id f j m ms here present admin =
    (m, rw (==_refl j), (==_iff j.0 household_id).0 here, present, admin)

-- The head of the map counts as an admin, or the count is that of the rest.
head-cases :
    (household_id : Uuid) (f : FakeHouseholdRepository) (j : MemberKey) (m : Membership)
    (ms : Map MemberKey Membership)
    → (((j.0 == household_id) ≡ true)
        × (is_removed j f ≡ false)
        × (Logic.is_admin m ≡ true)
        × (admin_count (members_of household_id f ((j, m) ∷ ms))
            ≡ suc (admin_count (members_of household_id f ms))))
      ⊎ (admin_count (members_of household_id f ((j, m) ∷ ms))
          ≡ admin_count (members_of household_id f ms))
unfolding members_of
head-cases household_id f j m ms = ground arith

some_admin :
    (household_id : Uuid) (f : FakeHouseholdRepository) (ms : Map MemberKey Membership)
    → IsMap ms
    → 0 < admin_count (members_of household_id f ms)
    → (key : MemberKey) × IsAdminAt household_id f ms key
unfolding members_of
some_admin household_id f [] h positive = absurd (omega arith)
some_admin household_id f ((j, m) ∷ ms) (fresh, h) positive =
    elim (head-cases household_id f j m ms) [
      | inl (here, present, admin, e) ↦ (j, first household_id f j m ms here present admin)
      | inr e ↦
          let (key, found) = some_admin household_id f ms h (omega arith) in
          (key, (later household_id f j key m ms fresh found).0)
    ]

-- Of two admins one is stored under another key than a given one.
pub other_admin :
    (household_id : Uuid) (f : FakeHouseholdRepository) (ms : Map MemberKey Membership)
    (avoid : MemberKey)
    → IsMap ms
    → 1 < admin_count (members_of household_id f ms)
    → (key : MemberKey) × IsAdminAt household_id f ms key × (key ≢ avoid)
unfolding members_of
other_admin household_id f [] avoid h many = absurd (omega arith)
other_admin household_id f ((j, m) ∷ ms) avoid (fresh, h) many =
    elim (head-cases household_id f j m ms) [
      | inr e ↦
          let (key, found, differs) = other_admin household_id f ms avoid h (omega arith) in
          (key, (later household_id f j key m ms fresh found).0, differs)
      | inl (here, present, admin, e) ↦ elim (Bool-cases (j == avoid)) [
        | inr apart ↦
            (j, first household_id f j m ms here present admin, ground (arith, ==_iff j avoid))
        | inl same ↦
            let (key, found) = some_admin household_id f ms h (omega arith) in
            let (there, differs) = later household_id f j key m ms fresh found in
            (key, there, λ k. differs (k ∙ sym ((==_iff j avoid).0 same)))
      ]
    ]

-- The household has an admin.
abbrev pub HasAdmin : Uuid → FakeHouseholdRepository → Type 0
HasAdmin household_id f = (user_id : Uuid) × IsAdmin household_id user_id f

is_removed-leave :
    (k j : MemberKey) (f : FakeHouseholdRepository)
    → is_removed j (leave k f) ≡ (if k == j then true else is_removed j f)
unfolding is_removed leave
is_removed-leave k j f = ground (arith, lookup-insert k j true f.removed)

is_removed-join :
    (k j : MemberKey) (m : Membership) (f : FakeHouseholdRepository)
    → is_removed j (join k m f) ≡ (if k == j then false else is_removed j f)
unfolding is_removed join
is_removed-join k j m f = ground (arith, lookup-delete k j f.removed)

-- An admin whose key is not the one that leaves stays an admin.
pub leave-IsAdmin :
    (household_id user_id : Uuid) (key : MemberKey) (f : FakeHouseholdRepository)
    → IsAdmin household_id user_id f
    → (household_id, user_id) ≢ key
    → IsAdmin household_id user_id (leave key f)
unfolding leave active
leave-IsAdmin household_id user_id key f (m, there, admin) differs =
    let apart : (key == (household_id, user_id)) ≡ false =
      ground (arith, ==_iff key (household_id, user_id)) in
    (m, rw (is_removed-leave key (household_id, user_id) f, apart) there, admin)

-- Whoever is an admin stays one when a key enters that is not active.
pub join-IsAdmin :
    (household_id user_id : Uuid) (key : MemberKey) (m : Membership) (f : FakeHouseholdRepository)
    → IsAdmin household_id user_id f
    → is_member key f ≡ false
    → IsAdmin household_id user_id (join key m f)
unfolding join active is_member contains
join-IsAdmin household_id user_id key m f (n, there, admin) gone =
    elim (Bool-cases (key == (household_id, user_id))) [
      | inl same ↦
          let e = (==_iff key (household_id, user_id)).0 same in
          let gone' = subst (λ k. is_member k f ≡ false) e gone in ground arith
      | inr apart ↦ (
        n,
        rw
            (
              is_removed-join key (household_id, user_id) m f,
              lookup-insert key (household_id, user_id) m f.members,
              apart,
            )
            there,
        admin,
      )
    ]

-- Removing an admin keeps another one, if more than one is counted.
pub leave-HasAdmin :
    (household_id user_id : Uuid) (f : FakeHouseholdRepository)
    → IsMap f.members
    → length f.members < 2 ^ 63
    → leb_ℤ (admins (λ n. n) household_id f) (pos 1) ≡ false
    → HasAdmin household_id (leave (household_id, user_id) f)
unfolding active
leave-HasAdmin household_id user_id f h fits many =
    let short = length-members_of household_id f f.members in
    let e = count_admins_exact 0 (members_of household_id f f.members) (omega arith) in
    let two : 1 < admin_count (members_of household_id f f.members) =
      (let many' = subst (λ n. leb_ℤ n (pos 1) ≡ false) e many in ground arith) in
    let (key, (m, there, here, present, admin), differs) =
      other_admin household_id f f.members (household_id, user_id) h two in
    let e : key ≡ (household_id, key.1) = ap (λ a. (a, key.1)) here in
    let stays : active (household_id, key.1) f ≡ some m =
      subst (λ k. active k f ≡ some m) e (rw present there) in
    (
      key.1,
      leave-IsAdmin household_id key.1 (household_id, user_id) f (m, stays, admin)
          (λ z. differs (e ∙ z)),
    )
