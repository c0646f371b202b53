-- ===== src/Household/Fake/Governed.antt =====
-- Every household of the storage in memory has an admin, and each write keeps it so.
use pfm_go.Common.{
  ℕ, ◌<◌, ◌^◌, false, ◌≡◌, refl, Bool, sym, ap, subst, ◌∙◌, ◌⊎◌, inl, inr, none, some, length, ◌==◌,
  ==_iff, ==_refl, nat_eq, pair_eq, Bool-cases, Option-cases, arith,
}
use pfm_go.Common.Int.{pos, leb_ℤ}
use pfm_go.Types.{Uuid}
use pfm_go.GoMap.{lookup, insert, delete}
use pfm_go.GoMap.Laws.{lookup-insert, lookup-delete, IsMap, insert-IsMap}
use pfm_go.Household.{Household, Membership}
use pfm_go.Household.Logic
use pfm_go.Household.Fake.{
  FakeHouseholdRepository, MemberKey, is_removed, active, is_member, join, leave, found, founder,
}
use pfm_go.Household.Fake.Guards.{IsAdmin, admins, IsRemovable}
use pfm_go.Household.Fake.Admins.{HasAdmin, leave-IsAdmin, join-IsAdmin, leave-HasAdmin}

-- No membership, present or past, is stored for the household's id.
abbrev pub IsUnused : Uuid → FakeHouseholdRepository → Type 0
IsUnused id f =
    (user_id : Uuid)
    → (lookup (id, user_id) f.members ≡ none) × (lookup (id, user_id) f.removed ≡ none)

-- Every household that is not deactivated has an admin.
abbrev pub IsGoverned : FakeHouseholdRepository → Type 0
IsGoverned f =
    (f.err ≡ none)
    × IsMap f.members
    × ((id : Uuid) (h : Household) → lookup id f.by_id ≡ some h → HasAdmin id f)

pub IsAdmin-cases :
    (household_id user_id : Uuid) (f : FakeHouseholdRepository)
    → IsAdmin household_id user_id f ⊎ (¬ IsAdmin household_id user_id f)
IsAdmin-cases household_id user_id f = elim (Option-cases (active (household_id, user_id) f)) [
  | inl gone ↦ inr (λ (m, there, admin). cc)
  | inr (m, there) ↦ elim (Bool-cases (Logic.is_admin m)) [
    | inl admin ↦ inl (m, there, admin)
    | inr other ↦ inr (λ (n, there', admin).
        (let e : some m ≡ some n = sym there ∙ there' in
          let same : Logic.is_admin m ≡ Logic.is_admin n = ground arith in cc))
  ]
]

-- What a write of a household that has an admin keeps.
pub put-IsGoverned :
    (id : Uuid) (h h' : Household) (f : FakeHouseholdRepository)
    → lookup id f.by_id ≡ some h
    → IsGoverned f
    → IsGoverned (record f { by_id = insert id h' f.by_id })
unfolding active is_removed
put-IsGoverned id h h' f there (working, is_map, admin) = (
  working,
  is_map,
  λ i k e. elim (Bool-cases (id == i)) [
    | inl same ↦ admin i h (subst (λ j. lookup j f.by_id ≡ some h) ((==_iff id i).0 same) there)
    | inr apart ↦
        let e' : lookup i f.by_id ≡ some k = ground (arith, lookup-insert id i h' f.by_id) in
        admin i k e'
  ],
)

pub drop-IsGoverned :
    (id : Uuid) (f : FakeHouseholdRepository)
    → IsGoverned f
    → IsGoverned (record f { by_id = delete id f.by_id })
unfolding active is_removed
drop-IsGoverned id f (working, is_map, admin) = (
  working,
  is_map,
  λ i k e.
      (let e' : lookup i f.by_id ≡ some k = ground (arith, lookup-delete id i f.by_id) in
        admin i k e'),
)

pub join-IsGoverned :
    (key : MemberKey) (m : Membership) (f : FakeHouseholdRepository)
    → is_member key f ≡ false
    → IsGoverned f
    → IsGoverned (join key m f)
unfolding join
join-IsGoverned key m f gone (working, is_map, admin) = (
  working,
  insert-IsMap key m f.members is_map,
  λ i k e. (let (u, is_admin) = admin i k e in (u, join-IsAdmin i u key m f is_admin gone)),
)

abbrev same_key : MemberKey → MemberKey → Bool
same_key j k = j == k

founder_active :
    (h : Household) (caller_id : Uuid) (f : FakeHouseholdRepository)
    → lookup (h.id, caller_id) f.removed ≡ none
    → active (h.id, caller_id) (found h caller_id f) ≡ some (founder h caller_id)
unfolding found active is_removed
founder_active h caller_id f unused =
    let key : MemberKey = (h.id, caller_id) in
    let m = founder h caller_id in
    let same = ==_refl {A = MemberKey} key in
    let stored : lookup key (insert key m f.members) ≡ some m =
      lookup-insert key key m f.members ∙ rw same in
    ground arith

found-active :
    (h : Household) (caller_id : Uuid) (key : MemberKey) (f : FakeHouseholdRepository)
    → same_key (h.id, caller_id) key ≡ false
    → active key (found h caller_id f) ≡ active key f
unfolding found active is_removed
found-active h caller_id key f apart =
    rw (lookup-insert (h.id, caller_id) key (founder h caller_id) f.members, apart)

pub found-IsGoverned :
    (h : Household) (caller_id : Uuid) (f : FakeHouseholdRepository)
    → IsUnused h.id f
    → IsGoverned f
    → IsGoverned (found h caller_id f)
unfolding found founder Logic.is_admin
found-IsGoverned h caller_id f unused (working, is_map, admin) = (
  working,
  insert-IsMap (h.id, caller_id) (founder h caller_id) f.members is_map,
  λ i k e. elim (Bool-cases (h.id == i)) [
    | inl same ↦
        subst (λ j. HasAdmin j (found h caller_id f)) ((==_iff h.id i).0 same)
          (
            caller_id,
            (founder h caller_id, founder_active h caller_id f (unused caller_id).1, refl),
          )
    | inr apart ↦
        let e' : lookup i f.by_id ≡ some k = ground (arith, lookup-insert h.id i h f.by_id) in
        let (u, (n, present, is_admin)) = admin i k e' in
        let other : same_key (h.id, caller_id) (i, u) ≡ false = ground arith in
        (u, (n, found-active h caller_id (i, u) f other ∙ present, is_admin))
  ],
)

module _ (uuid_new : ℕ → Uuid) where
  -- An admin who may leave is not the only one.
  removable_admin :
      (household_id user_id : Uuid) (f : FakeHouseholdRepository)
      → IsRemovable uuid_new household_id user_id f
      → IsAdmin household_id user_id f
      → leb_ℤ (admins uuid_new household_id f) (pos 1) ≡ false
  removable_admin household_id user_id f (m, there, inr many) _ = many
  removable_admin household_id user_id f (m, there, inl other) (n, present, admin) =
      let e : some m ≡ some n = sym there ∙ present in ground arith

  pub leave-IsGoverned :
      (household_id user_id : Uuid) (f : FakeHouseholdRepository)
      → IsRemovable uuid_new household_id user_id f
      → length f.members < 2 ^ 63
      → IsGoverned f
      → IsGoverned (leave (household_id, user_id) f)
  unfolding leave
  leave-IsGoverned household_id user_id f removable fits (working, is_map, admin) = (
    working,
    is_map,
    λ i k e.
        (let (u, is_admin) = admin i k e in
          elim (Bool-cases (same_key (i, u) (household_id, user_id))) [
            | inr apart ↦ (
              u,
              leave-IsAdmin i u (household_id, user_id) f is_admin
                  (ground (arith, ==_iff {A = MemberKey} (i, u) (household_id, user_id))),
            )
            | inl same ↦
                let p : ◌≡◌ {A = MemberKey} (i, u) (household_id, user_id) =
                  (==_iff {A = MemberKey} (i, u) (household_id, user_id)).0 same in
                let target_is_admin : IsAdmin household_id user_id f =
                  subst (λ (q : MemberKey). IsAdmin q.0 q.1 f) p is_admin in
                subst (λ j. HasAdmin j (leave (household_id, user_id) f))
                  (sym (ap (λ (q : MemberKey). q.0) p))
                  (leave-HasAdmin household_id user_id f is_map fits
                    (removable_admin household_id user_id f removable target_is_admin))
          ]),
  )
