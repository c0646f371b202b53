-- ===== src/Household/Fake/Counts.antt =====
-- The number of admins that `RemoveMember` counts, against the users who administer the household.
use pfm_go.Common.{
  suc, ◌<◌, ◌≤◌, ◌^◌, true, false, ◌≡◌, ◌≢◌, refl, sym, ap, subst, ◌∙◌, ◌⊎◌, inl, inr, some, [],
  ◌∷◌, length, ◌==◌, ==_iff, nat_eq, pair_eq, string_eq, Bool-cases, arith,
}
use pfm_go.Common.Int.{pos, leb_ℤ}
use pfm_go.Types.{Uuid}
use pfm_go.GoMap.{Map, lookup}
use pfm_go.GoMap.Laws.{IsMap}
use pfm_go.Household.{Membership}
use pfm_go.Household.Logic
use pfm_go.Household.Fake.{FakeHouseholdRepository, MemberKey, is_removed, active, members_of}
use pfm_go.Household.Fake.Guards.{IsAdmin, admins}
use pfm_go.Household.Fake.Admins.{
  admin_count, count_admins_exact, length-members_of, IsAdminAt, other_admin,
}
use pfm_go.Household.Fake.Memberships.{Administers, Administers-IsAdmin}

-- An admin of the map is at its head, where the count grows, or behind it.
at_head :
    (household_id : Uuid) (f : FakeHouseholdRepository) (j : MemberKey) (m : Membership)
    (ms : Map MemberKey Membership) (key : MemberKey)
    → IsAdminAt household_id f ((j, m) ∷ ms) key
    → ((j ≡ key)
        × (admin_count (members_of household_id f ((j, m) ∷ ms))
            ≡ suc (admin_count (members_of household_id f ms))))
      ⊎ IsAdminAt household_id f ms key
unfolding lookup members_of
at_head household_id f j m ms key (n, there, here, present, admin) = elim (Bool-cases (j == key)) [
  | inr apart ↦
      let behind : lookup key ((j, m) ∷ ms) ≡ lookup key ms = rw apart in
      inr (n, sym behind ∙ there, here, present, admin)
  | inl same ↦
      let e : j ≡ key = (==_iff j key).0 same in
      let front : lookup key ((j, m) ∷ ms) ≡ some m = rw same in
      let stored : some m ≡ some n = sym front ∙ there in
      let admin' : Logic.is_admin m ≡ true = ground arith in
      let present' : is_removed j f ≡ false = subst (λ k. is_removed k f ≡ false) (sym e) present in
      let here' : (j.0 == household_id) ≡ true =
        (==_iff j.0 household_id).1 (ap (λ k. k.0) e ∙ here) in
      inl (e, rw (here', present', admin'))
]

rest_counts :
    (household_id : Uuid) (f : FakeHouseholdRepository) (j : MemberKey) (m : Membership)
    (ms : Map MemberKey Membership)
    → admin_count (members_of household_id f ms)
      ≤ admin_count (members_of household_id f ((j, m) ∷ ms))
unfolding members_of
rest_counts household_id f j m ms = ground arith

counted :
    (household_id : Uuid) (f : FakeHouseholdRepository) (ms : Map MemberKey Membership)
    (key : MemberKey)
    → IsAdminAt household_id f ms key
    → 0 < admin_count (members_of household_id f ms)
unfolding lookup
counted household_id f [] key (n, there, _, _, _) = absurd (ground arith)
counted household_id f ((j, m) ∷ ms) key found = elim (at_head household_id f j m ms key found) [
  | inl (_, e) ↦ omega (arith, e)
  | inr behind ↦
      omega (arith, counted household_id f ms key behind, rest_counts household_id f j m ms)
]

-- Two admins under different keys are both counted.
counted_twice :
    (household_id : Uuid) (f : FakeHouseholdRepository) (ms : Map MemberKey Membership)
    (key key' : MemberKey)
    → key ≢ key'
    → IsAdminAt household_id f ms key
    → IsAdminAt household_id f ms key'
    → 1 < admin_count (members_of household_id f ms)
unfolding lookup
counted_twice household_id f [] key key' differs (n, there, _, _, _) found' = absurd (ground arith)
counted_twice household_id f ((j, m) ∷ ms) key key' differs found found' =
    let more = rest_counts household_id f j m ms in
    elim (at_head household_id f j m ms key found) [
      | inl (same, e) ↦ elim (at_head household_id f j m ms key' found') [
        | inl (same', _) ↦ absurd (differs (sym same ∙ same'))
        | inr behind' ↦ omega (arith, e, counted household_id f ms key' behind')
      ]
      | inr behind ↦ elim (at_head household_id f j m ms key' found') [
        | inl (same', e) ↦ omega (arith, e, counted household_id f ms key behind)
        | inr behind' ↦
            omega (arith, more, counted_twice household_id f ms key key' differs behind behind')
      ]
    ]

at_key :
    (household_id user_id : Uuid) (f : FakeHouseholdRepository)
    → IsAdmin household_id user_id f
    → IsAdminAt household_id f f.members (household_id, user_id)
unfolding active
at_key household_id user_id f (m, there, admin) = (m, ground arith, refl, ground arith, admin)

-- Two different admins make the guard's count more than one.
two_admins :
    (household_id user_id other_id : Uuid) (f : FakeHouseholdRepository)
    → length f.members < 2 ^ 63
    → IsAdmin household_id user_id f
    → IsAdmin household_id other_id f
    → other_id ≢ user_id
    → leb_ℤ (admins (λ n. n) household_id f) (pos 1) ≡ false
two_admins household_id user_id other_id f fits user other differs =
    let listed = members_of household_id f f.members in
    let short = length-members_of household_id f f.members in
    let exact = count_admins_exact 0 listed (omega arith) in
    let many =
      counted_twice household_id f f.members (household_id, other_id) (household_id, user_id)
        (λ e. differs (ap (λ k. k.1) e)) (at_key household_id other_id f other)
        (at_key household_id user_id f user) in
    subst (λ n. leb_ℤ n (pos 1) ≡ false) (sym exact) (ground arith)

pub only_one :
    (household_id user_id other_id : Uuid) (f : FakeHouseholdRepository)
    → length f.members < 2 ^ 63
    → IsAdmin household_id user_id f
    → leb_ℤ (admins (λ n. n) household_id f) (pos 1) ≡ true
    → IsAdmin household_id other_id f
    → other_id ≡ user_id
only_one household_id user_id other_id f fits user few other =
    elim (Bool-cases (other_id == user_id)) [
      | inl same ↦ (==_iff other_id user_id).0 same
      | inr apart ↦
          let differs : other_id ≢ user_id = ground (arith, ==_iff other_id user_id) in
          let many = two_admins household_id user_id other_id f fits user other differs in
          absurd (ground arith)
    ]

active_of :
    (key : MemberKey) (m : Membership) (f : FakeHouseholdRepository)
    → lookup key f.members ≡ some m
    → is_removed key f ≡ false
    → active key f ≡ some m
unfolding active
active_of key m f there present = rw present there

-- More than one counted admin means that another administers the household.
pub another_admin :
    (household_id user_id : Uuid) (f : FakeHouseholdRepository)
    → IsMap f.members
    → length f.members < 2 ^ 63
    → leb_ℤ (admins (λ n. n) household_id f) (pos 1) ≡ false
    → (other_id : Uuid) × (other_id ≢ user_id) × Administers household_id other_id f
another_admin household_id user_id f is_map fits many =
    let listed = members_of household_id f f.members in
    let short = length-members_of household_id f f.members in
    let exact = count_admins_exact 0 listed (omega arith) in
    let two : 1 < admin_count listed =
      (let many' = subst (λ n. leb_ℤ n (pos 1) ≡ false) exact many in ground arith) in
    let (key, (m, there, here, present, admin), differs) =
      other_admin household_id f f.members (household_id, user_id) is_map two in
    let e : key ≡ (household_id, key.1) = ap (λ a. (a, key.1)) here in
    let stays : IsAdmin household_id key.1 f =
      (m, subst (λ k. active k f ≡ some m) e (active_of key m f there present), admin) in
    (
      key.1,
      λ same. differs (e ∙ ap (λ u. (household_id, u)) same),
      Administers-IsAdmin household_id key.1 f stays,
    )
