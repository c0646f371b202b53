-- ===== src/Household/Fake/Changes.antt =====
-- What `AddMember` and `RemoveMember` do to the memberships, over the storage in memory.
use pfm_go.Common.{
  ℕ, ◌<◌, ◌^◌, ◌≡◌, ◌≢◌, sym, ap, ◌∙◌, ◌⊎◌, inl, inr, none, some, length, ◌==◌, ==_iff, nat_eq,
  pair_eq, string_eq, if◌then◌else◌,
}
use pfm_go.Types.{Uuid, zero_time, role_admin}
use pfm_go.Message.{wrapped}
use pfm_go.Effect.{Result, ok}
use pfm_go.GoMap.Laws.{IsMap}
use pfm_go.Household.{Membership, AddMemberInput}
use pfm_go.Household.Logic
use pfm_go.Household.Logic.Ends.{last_admin}
use pfm_go.Household.Fake.{FakeHouseholdRepository, MemberKey, join, leave, new_membership}
use pfm_go.Household.Fake.Guards.{repo, member_exists, add_member_outcomes, remove_member_outcomes}
use pfm_go.Household.Fake.Memberships.{
  membership, Administers, active-membership, IsAdmin-Administers, Administers-IsAdmin,
  is_member-cases, membership-join, membership-leave,
}
use pfm_go.Household.Fake.Counts.{only_one, another_admin}

module _ (uuid_new : ℕ → Uuid) where
  -- With no injected error, an admin's call of `AddMember` fails without effect if the user has a
  -- membership in the household already. Otherwise it returns the membership with the given role,
  -- invited by the caller, and the user has that membership, also after an earlier one was removed;
  -- every other membership and the households are as before.
  pub add_member-Joins :
      (household_id : Uuid) (input : AddMemberInput) (caller_id : Uuid)
      (f : FakeHouseholdRepository)
      → f.err ≡ none
      → Administers household_id caller_id f
      → let r = Logic.add_member (repo uuid_new) household_id input caller_id f in
        let m : Membership = record {
          household_id = household_id;
          user_id = input.user_id;
          role = input.role;
          invited_by = caller_id;
          joined_at = zero_time;
        } in
        ((n : Membership) × (membership (household_id, input.user_id) f ≡ some n)
          × (r ≡ (Result.err (wrapped "household logic: add member: %w" member_exists), f)))
        ⊎ ((membership (household_id, input.user_id) f ≡ none)
            × (r.0 ≡ ok m)
            × (r.1.by_id ≡ f.by_id)
            × ((k : MemberKey)
                → membership k r.1
                  ≡ (if (household_id, input.user_id) == k then some m else membership k f)))
  unfolding new_membership join
  add_member-Joins household_id input caller_id f working h =
      let key : MemberKey = (household_id, input.user_id) in
      let m = new_membership household_id input caller_id in
      elim (add_member_outcomes uuid_new household_id input caller_id f working
        (IsAdmin-Administers household_id caller_id f h)) [
          | inl (there, e) ↦ elim (is_member-cases key f) [
            | inl (_, n, found) ↦ inl (n, found, e)
            | inr (gone, _) ↦ absurd (cc)
          ]
          | inr (gone, e) ↦ elim (is_member-cases key f) [
            | inl (there, _, _) ↦ absurd (cc)
            | inr (_, free) ↦ inr (
              free,
              ap (λ r. r.0) e,
              ap (λ r. r.1.by_id) e,
              λ k. ap (λ r. membership k r.1) e ∙ membership-join key k m f,
            )
          ]
        ]

  -- With no injected error, distinct keys and fewer than 2 ^ 63 memberships, an admin's call of
  -- `RemoveMember` succeeds without effect if the user has no membership in the household, and is
  -- refused without effect if the user is its one and only admin. Otherwise, when the user is no
  -- admin or another user is one as well, it succeeds, the user has no membership there, and every
  -- other membership and the households are as before.
  pub remove_member-Leaves :
      (household_id user_id caller_id : Uuid) (f : FakeHouseholdRepository)
      → f.err ≡ none
      → IsMap f.members
      → length f.members < 2 ^ 63
      → Administers household_id caller_id f
      → let r = Logic.remove_member (repo uuid_new) household_id user_id caller_id f in
        let key : MemberKey = (household_id, user_id) in
        ((membership key f ≡ none) × (r ≡ (ok tt, f)))
        ⊎ (Administers household_id user_id f
            × ((other_id : Uuid) → Administers household_id other_id f → other_id ≡ user_id)
            × (r ≡ (Result.err last_admin, f)))
        ⊎ ((m : Membership) × (membership key f ≡ some m)
            × ((m.role ≢ role_admin)
                ⊎ ((other_id : Uuid) × (other_id ≢ user_id) × Administers household_id other_id f))
            × (r.0 ≡ ok tt)
            × (r.1.by_id ≡ f.by_id)
            × ((k : MemberKey) → membership k r.1 ≡ (if key == k then none else membership k f)))
  unfolding Logic.is_admin leave
  remove_member-Leaves household_id user_id caller_id f working is_map fits h =
      let key : MemberKey = (household_id, user_id) in
      let same = active-membership key f in
      elim (remove_member_outcomes uuid_new household_id user_id caller_id f working
        (IsAdmin-Administers household_id caller_id f h)) [
          | inl (gone, e) ↦ inl (sym same ∙ gone, e)
          | inr (inl (admin, few, e)) ↦ inr (
              inl (
                Administers-IsAdmin household_id user_id f admin,
                λ other_id other.
                    only_one household_id user_id other_id f fits admin few
                      (IsAdmin-Administers household_id other_id f other),
                e,
              ))
          | inr (inr ((m, there, why), e)) ↦ inr (
              inr (
                m,
                sym same ∙ there,
                elim why [
                  | inl other ↦ inl (λ admin. (let h' = (==_iff m.role role_admin).1 admin in cc))
                  | inr many ↦ inr (another_admin household_id user_id f is_map fits many)
                ],
                ap (λ r. r.0) e,
                ap (λ r. r.1.by_id) e,
                λ k. ap (λ r. membership k r.1) e ∙ membership-leave key k f,
              ))
        ]
