-- ===== src/Household/Fake/Reach.antt =====
-- The states of the storage in memory that calls of `HouseholdLogic` reach.
use pfm_go.Common.{
  ℕ, ◌<◌, ◌^◌, ◌≡◌, refl, sym, ap, subst, ◌⊎◌, inl, inr, none, some, length, nat_eq, Bool-cases,
  Option-cases, arith,
}
use pfm_go.Common.Int.{ℤ, eqb_ℤ}
use pfm_go.Types.{Uuid}
use pfm_go.Message.{Error, sentinel, wrapped, Sentinel}
use pfm_go.Effect.{Result, ok}
use pfm_go.GoMap.{lookup, insert, delete}
use pfm_go.Validate.Collects.{check_pass, check_fail, nil-cases}
use pfm_go.Database.{fake_transactor, fake_run_atomic}
use pfm_go.Household.{Household, CreateInput, UpdateNameInput, AddMemberInput}
use pfm_go.Household.Logic
use pfm_go.Household.Fake.{
  FakeHouseholdRepository, new_fake_household_repository, found, new_household, new_membership,
  with_name, create, update_name, deactivate,
}
use pfm_go.Household.Fake.Guards.{repo, only_admins, add_member_outcomes, remove_member_outcomes}
use pfm_go.Household.Fake.Admins.{HasAdmin}
use pfm_go.Household.Fake.Governed.{
  IsUnused, IsGoverned, IsAdmin-cases, put-IsGoverned, drop-IsGoverned, join-IsGoverned,
  found-IsGoverned, leave-IsGoverned,
}

-- `UpdateName` of the storage fails and writes nothing, or writes a household that is there.
stored_name :
    (id : Uuid) (input : UpdateNameInput) (v : ℤ) (caller_id : Uuid) (f : FakeHouseholdRepository)
    → f.err ≡ none
    → ((e : Error) × (update_name id input v caller_id f ≡ (Result.err e, f)))
      ⊎ ((h : Household) × (lookup id f.by_id ≡ some h)
          × (update_name id input v caller_id f ≡ (
            ok (with_name input caller_id h),
            record f { by_id = insert id (with_name input caller_id h) f.by_id },
          )))
unfolding update_name
stored_name id input v caller_id f working = elim (Option-cases (lookup id f.by_id)) [
  | inl missing ↦ inl (
    wrapped "household: update name: %w" (sentinel Sentinel.household_not_found),
    rw (working, missing),
  )
  | inr (h, there) ↦ elim (Bool-cases (eqb_ℤ h.version v)) [
    | inr conflict ↦ inl (
      wrapped "household: update name: %w" (sentinel Sentinel.household_version_conflict),
      rw (working, there, conflict),
    )
    | inl current ↦ inr (h, there, rw (working, there, current))
  ]
]

module _ (uuid_new : ℕ → Uuid) where
  create_founds :
      (input : CreateInput) (caller_id : Uuid) (f : FakeHouseholdRepository)
      → f.err ≡ none
      → create uuid_new input caller_id f ≡ (
        ok (new_household uuid_new input caller_id f.drawn),
        found (new_household uuid_new input caller_id f.drawn) caller_id f,
      )
  unfolding create
  create_founds input caller_id f working = rw working

  create-cases :
      (input : CreateInput) (caller_id : Uuid) (f : FakeHouseholdRepository)
      → f.err ≡ none
      → ((Logic.create (repo uuid_new) fake_transactor input caller_id f).1 ≡ f)
        ⊎ ((Logic.create (repo uuid_new) fake_transactor input caller_id f).1
            ≡ found (new_household uuid_new input caller_id f.drawn) caller_id f)
  unfolding Logic.create fake_run_atomic
  create-cases input caller_id f working =
      let e = create_founds input caller_id f working in
      elim (nil-cases (Logic.name_result input.name)) [
        | inl passes ↦ let h = check_pass _ f passes in inr (ground arith)
        | inr violated ↦ let h = check_fail _ f violated in inl (ground arith)
      ]

  update_name-cases :
      (id : Uuid) (input : UpdateNameInput) (v : ℤ) (caller_id : Uuid) (f : FakeHouseholdRepository)
      → f.err ≡ none
      → ((Logic.update_name (repo uuid_new) id input v caller_id f).1 ≡ f)
        ⊎ ((h : Household) × (lookup id f.by_id ≡ some h)
            × ((Logic.update_name (repo uuid_new) id input v caller_id f).1
                ≡ record f { by_id = insert id (with_name input caller_id h) f.by_id }))
  unfolding Logic.update_name
  update_name-cases id input v caller_id f working =
      elim (nil-cases (Logic.name_result input.name)) [
        | inr violated ↦ let h = check_fail _ f violated in inl (ground arith)
        | inl passes ↦
            let checked = check_pass _ f passes in
            elim (stored_name id input v caller_id f working) [
              | inl (e, same) ↦ inl (ground arith)
              | inr (h, there, e) ↦ inr (h, there, ground arith)
            ]
      ]

  deactivate_drops :
      (id caller_id : Uuid) (f : FakeHouseholdRepository)
      → f.err ≡ none
      → (Logic.deactivate (repo uuid_new) id caller_id f).1 ≡ record f { by_id = delete id f.by_id }
  unfolding Logic.deactivate deactivate
  deactivate_drops id caller_id f working = rw working

  -- One call, with a caller who may be anyone. `Create` needs an id that no household had, and
  -- the int that counts the admins needs fewer than 2^63 memberships.
  pub data Step : FakeHouseholdRepository → FakeHouseholdRepository → Type 0 where
    creates :
        (input : CreateInput) (caller_id : Uuid) (f : FakeHouseholdRepository)
        → IsUnused (uuid_new f.drawn) f
        → Step f (Logic.create (repo uuid_new) fake_transactor input caller_id f).1
    adds :
        (household_id : Uuid) (input : AddMemberInput) (caller_id : Uuid)
        (f : FakeHouseholdRepository)
        → Step f (Logic.add_member (repo uuid_new) household_id input caller_id f).1
    removes :
        (household_id user_id caller_id : Uuid) (f : FakeHouseholdRepository)
        → length f.members < 2 ^ 63
        → Step f (Logic.remove_member (repo uuid_new) household_id user_id caller_id f).1
    renames :
        (id : Uuid) (input : UpdateNameInput) (expected_version : ℤ) (caller_id : Uuid)
        (f : FakeHouseholdRepository)
        → Step f (Logic.update_name (repo uuid_new) id input expected_version caller_id f).1
    deactivates :
        (id caller_id : Uuid) (f : FakeHouseholdRepository)
        → Step f (Logic.deactivate (repo uuid_new) id caller_id f).1

  pub data Reachable : FakeHouseholdRepository → Type 0 where
    initial : Reachable new_fake_household_repository
    continues : {f f' : FakeHouseholdRepository} → Reachable f → Step f f' → Reachable f'

  Step-IsGoverned : (f f' : FakeHouseholdRepository) → Step f f' → IsGoverned f → IsGoverned f'
  unfolding new_household
  Step-IsGoverned _ _ (creates input caller_id f unused) h =
      elim (create-cases input caller_id f h.0) [
        | inl e ↦ subst IsGoverned (sym e) h
        | inr e ↦
            subst IsGoverned (sym e) (
              found-IsGoverned (new_household uuid_new input caller_id f.drawn) caller_id f unused
                h)
      ]
  Step-IsGoverned _ _ (adds household_id input caller_id f) h =
      elim (IsAdmin-cases household_id caller_id f) [
        | inl admin ↦ elim (add_member_outcomes uuid_new household_id input caller_id f h.0 admin) [
          | inl (exists, e) ↦ subst IsGoverned (sym (ap (λ x. x.1) e)) h
          | inr (gone, e) ↦ subst IsGoverned (sym (ap (λ x. x.1) e)) (
              join-IsGoverned (household_id, input.user_id)
                (new_membership household_id input caller_id) f gone h)
        ]
        | inr other ↦
            let e = (only_admins uuid_new household_id caller_id f h.0 other input 0).0 in
            subst IsGoverned (sym (ap (λ x. x.1) e)) h
      ]
  Step-IsGoverned _ _ (removes household_id user_id caller_id f fits) h =
      elim (IsAdmin-cases household_id caller_id f) [
        | inl admin ↦
            elim (remove_member_outcomes uuid_new household_id user_id caller_id f h.0 admin) [
              | inl (gone, e) ↦ subst IsGoverned (sym (ap (λ x. x.1) e)) h
              | inr (inl (is_admin, last, e)) ↦ subst IsGoverned (sym (ap (λ x. x.1) e)) h
              | inr (inr (removable, e)) ↦
                  subst IsGoverned (sym (ap (λ x. x.1) e))
                    (leave-IsGoverned uuid_new household_id user_id f removable fits h)
            ]
        | inr other ↦
            let e =
              (only_admins uuid_new household_id caller_id f h.0 other
                (record { user_id = 0; role = "" }) user_id).1 in
            subst IsGoverned (sym (ap (λ x. x.1) e)) h
      ]
  Step-IsGoverned _ _ (renames id input expected_version caller_id f) h =
      elim (update_name-cases id input expected_version caller_id f h.0) [
        | inl e ↦ subst IsGoverned (sym e) h
        | inr (old, there, e) ↦
            subst IsGoverned (sym e)
              (put-IsGoverned id old (with_name input caller_id old) f there h)
      ]
  Step-IsGoverned _ _ (deactivates id caller_id f) h =
      subst IsGoverned (sym (deactivate_drops id caller_id f h.0)) (drop-IsGoverned id f h)

  Reachable-IsGoverned : (f : FakeHouseholdRepository) → Reachable f → IsGoverned f
  unfolding lookup
  Reachable-IsGoverned _ initial = (refl, tt, λ i k e. cc)
  Reachable-IsGoverned f (continues before step) =
      Step-IsGoverned _ f step (Reachable-IsGoverned _ before)

  -- In every state that calls of `HouseholdLogic` reach from the empty storage, where `Create`
  -- draws an id that no membership had and fewer than 2^63 memberships are stored when a member
  -- is removed, every household that is not deactivated has an active member who is its admin.
  pub every_household-HasAdmin :
      (f : FakeHouseholdRepository)
      → Reachable f
      → (id : Uuid) (h : Household) → lookup id f.by_id ≡ some h
      → HasAdmin id f
  every_household-HasAdmin f reached = (Reachable-IsGoverned f reached).2
