-- ===== src/Household/Logic/Ends.antt =====
-- internal/domain/household/household_logic.go: where `AddMember` and `RemoveMember` end, over a
-- storage whose reads leave it as it is.
use pfm_go.Common.{String, true, false, ◌≡◌, ◌⊎◌, inl, inr, List, arith}
use pfm_go.Common.Int.{ℤ, pos, leb_ℤ}
use pfm_go.Types.{Uuid}
use pfm_go.Message.{Error, sentinel, wrapped, Sentinel, is}
use pfm_go.Effect.{ok, err, annotate}
use pfm_go.Household.{Membership, AddMemberInput, Repository}
use pfm_go.Household.Logic.{
  is_admin, count_admins, require_admin, add_member, remove_target, remove_member,
}

abbrev pub not_admin : String → Error
not_admin format = wrapped format (sentinel Sentinel.household_not_admin)

abbrev pub last_admin : Error
last_admin = wrapped "household logic: remove member: %w" (sentinel Sentinel.household_last_admin)

module _ {S : Type 0} (repo : Repository S) (s : S) where
  -- The caller's membership is read and is an admin's.
  abbrev pub IsAllowed : Uuid → Uuid → Type 0
  IsAllowed household_id caller_id =
      (m : Membership) × (repo.find_membership household_id caller_id s ≡ (ok m, s))
      × (is_admin m ≡ true)

  -- The caller's membership is read and is not an admin's, or is not there.
  abbrev pub IsRefused : Uuid → Uuid → Type 0
  IsRefused household_id caller_id =
      ((m : Membership) × (repo.find_membership household_id caller_id s ≡ (ok m, s))
        × (is_admin m ≡ false))
      ⊎ ((e : Error) × (repo.find_membership household_id caller_id s ≡ (err e, s))
          × (is e Sentinel.household_member_not_found ≡ true))

  require_admin-IsAllowed :
      (format : String) (household_id caller_id : Uuid)
      → IsAllowed household_id caller_id
      → require_admin repo format household_id caller_id s ≡ (ok tt, s)
  unfolding require_admin
  require_admin-IsAllowed format household_id caller_id (m, read, admin) = ground arith

  require_admin-IsRefused :
      (format : String) (household_id caller_id : Uuid)
      → IsRefused household_id caller_id
      → require_admin repo format household_id caller_id s ≡ (err (not_admin format), s)
  unfolding require_admin
  require_admin-IsRefused format household_id caller_id (inl (m, read, other)) = ground arith
  require_admin-IsRefused format household_id caller_id (inr (e, read, missing)) = ground arith

  pub add_member-IsRefused :
      (household_id : Uuid) (input : AddMemberInput) (caller_id : Uuid)
      → IsRefused household_id caller_id
      → add_member repo household_id input caller_id s
        ≡ (err (not_admin "household logic: add member: %w"), s)
  unfolding add_member
  add_member-IsRefused household_id input caller_id h =
      let refused =
        require_admin-IsRefused "household logic: add member: %w" household_id caller_id h in
      ground arith

  pub add_member-IsAllowed :
      (household_id : Uuid) (input : AddMemberInput) (caller_id : Uuid)
      → IsAllowed household_id caller_id
      → add_member repo household_id input caller_id s
        ≡ annotate "household logic: add member: %w"
            (repo.add_member household_id input caller_id)
            s
  unfolding add_member
  add_member-IsAllowed household_id input caller_id h =
      let allowed =
        require_admin-IsAllowed "household logic: add member: %w" household_id caller_id h in
      ground arith

  pub remove_member-IsRefused :
      (household_id user_id caller_id : Uuid)
      → IsRefused household_id caller_id
      → remove_member repo household_id user_id caller_id s
        ≡ (err (not_admin "household logic: remove member: %w"), s)
  unfolding remove_member
  remove_member-IsRefused household_id user_id caller_id h =
      let refused =
        require_admin-IsRefused "household logic: remove member: %w" household_id caller_id h in
      ground arith

  pub remove_member-IsAllowed :
      (household_id user_id caller_id : Uuid) (ms : List Membership)
      → IsAllowed household_id caller_id
      → repo.list_members household_id s ≡ (ok ms, s)
      → remove_member repo household_id user_id caller_id s
        ≡ remove_target repo household_id user_id caller_id (count_admins (pos 0) ms) s
  unfolding remove_member
  remove_member-IsAllowed household_id user_id caller_id ms h listed =
      let allowed =
        require_admin-IsAllowed "household logic: remove member: %w" household_id caller_id h in
      ground arith

  pub remove_target-gone :
      (household_id user_id caller_id : Uuid) (n : ℤ) (e : Error)
      → repo.find_membership household_id user_id s ≡ (err e, s)
      → is e Sentinel.household_member_not_found ≡ true
      → remove_target repo household_id user_id caller_id n s ≡ (ok tt, s)
  unfolding remove_target
  remove_target-gone household_id user_id caller_id n e read missing = ground arith

  -- The target is an admin, and the only one.
  abbrev pub IsLast : ℤ → Membership → Type 0
  IsLast n m = (is_admin m ≡ true) × (leb_ℤ n (pos 1) ≡ true)

  pub remove_target-IsLast :
      (household_id user_id caller_id : Uuid) (n : ℤ) (m : Membership)
      → repo.find_membership household_id user_id s ≡ (ok m, s)
      → IsLast n m
      → remove_target repo household_id user_id caller_id n s ≡ (err last_admin, s)
  unfolding remove_target
  remove_target-IsLast household_id user_id caller_id n m read (admin, last) = ground arith

  pub remove_target-others :
      (household_id user_id caller_id : Uuid) (n : ℤ) (m : Membership)
      → repo.find_membership household_id user_id s ≡ (ok m, s)
      → (is_admin m ≡ false) ⊎ (leb_ℤ n (pos 1) ≡ false)
      → remove_target repo household_id user_id caller_id n s
        ≡ annotate "household logic: remove member: %w"
            (repo.remove_member household_id user_id caller_id)
            s
  unfolding remove_target
  remove_target-others household_id user_id caller_id n m read (inl other) = ground arith
  remove_target-others household_id user_id caller_id n m read (inr many) = ground arith
