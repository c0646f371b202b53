-- ===== src/Household/Members/Inserts.antt =====
-- internal/domain/household/member_logic.go over the users' logic and the storages of
-- internal/adapter/postgres: what its two insertions write, and who sees it.
use pfm_go.Common.{String, Option, some, ◌≡◌, ap, subst, sym, ◌∙◌, inl, inr, arith}
use pfm_go.Types.{Uuid, role_member}
use pfm_go.Message.{Sentinel}
use pfm_go.Effect.{ok, Result-cases}
use pfm_go.User.{RegisterInput, PasswordHasher}
use pfm_go.User
use pfm_go.User.Logic.{register}
use pfm_go.Household
use pfm_go.Household.{
  Repository, UserCreator, NewUserInput, CreatedUser, CreatedMember, AddMemberInput,
}
use pfm_go.Household.Members.{create_and_add}
use pfm_go.Household.Members.Creator.{create, household_user_creator}
use pfm_go.Postgres.{DriverErrors, uuid_to_pg_uuid, or_violation}
use pfm_go.Postgres.Outcomes.{or_violation-state, or_violation-ok}
use pfm_go.Postgres.Users
use pfm_go.Postgres.Users.{user_repo}
use pfm_go.Postgres.Households
use pfm_go.Postgres.Households.{household_repo}
use pfm_go.Household.Members.Steps.{create_and_add-steps, create-registered, register_hidden}

-- What the two tables show: the e-mail of each user, and the role of each member.
pub record Tables : Type 0 where
  pub email_of : Uuid → Option String
  pub role_of : Uuid → Uuid → Option String

-- What the two insertions do when they return a row.
pub record Inserts {S : Type 0} (users : Users.Queries S) (households : Households.Queries S)
    (working : S → Tables) : Type 0 where
  pub user_inserted :
      (email hash name : String) (by by' : Option Uuid) (s : S) (row : Users.UserRow)
      → (users.create_user email hash name by by' s).0 ≡ ok row
      → (working (users.create_user email hash name by by' s).1).email_of row.id ≡ some email
  pub member_inserted :
      (household_id user_id : Uuid) (role : String) (by : Option Uuid) (s : S)
      (row : Households.MembershipRow)
      → (households.create_household_member household_id user_id role by s).0 ≡ ok row
      → ((working (households.create_household_member household_id user_id role by s).1).role_of
            household_id user_id
          ≡ some role)
        × ((working (households.create_household_member household_id user_id role by s).1).email_of
            ≡ (working s).email_of)

-- Nobody else sees what the insertions write before the commit, and hashing a password leaves the
-- database alone.
pub record AreHidden {S : Type 0} (users : Users.Queries S) (households : Households.Queries S)
    (hasher : PasswordHasher S) (seen : S → Tables) : Type 0 where
  pub user_hidden :
      (email hash name : String) (by by' : Option Uuid) (s : S)
      → seen (users.create_user email hash name by by' s).1 ≡ seen s
  pub member_hidden :
      (household_id user_id : Uuid) (role : String) (by : Option Uuid) (s : S)
      → seen (households.create_household_member household_id user_id role by s).1 ≡ seen s
  pub hash_hidden : (password : String) (s : S) → seen (hasher.hash password s).1 ≡ seen s

module _ (errors : DriverErrors) {S : Type 0} (users : Users.Queries S)
    (households : Households.Queries S) (hasher : PasswordHasher S) where
  module _ (seen : S → Tables) (hidden : AreHidden users households hasher seen) where
    insert_user_hidden :
        (input : RegisterInput) (hash : String) (caller_id : Uuid) (s : S)
        → seen (Users.create errors users input hash caller_id s).1 ≡ seen s
    unfolding Users.create
    insert_user_hidden input hash caller_id s =
        let by = uuid_to_pg_uuid caller_id in
        let query = users.create_user input.email hash input.display_name by by in
        let kept = hidden.user_hidden input.email hash input.display_name by by s in
        let told =
          or_violation-state errors "user: create: %w" "users_email_unique_active"
            Sentinel.user_email_taken query s in
        ground arith

    insert_member_hidden :
        (household_id : Uuid) (input : AddMemberInput) (caller_id : Uuid) (s : S)
        → seen (Households.add_member errors households household_id input caller_id s).1 ≡ seen s
    unfolding Households.add_member
    insert_member_hidden household_id input caller_id s =
        let by = uuid_to_pg_uuid caller_id in
        let query = households.create_household_member household_id input.user_id input.role by in
        let kept = hidden.member_hidden household_id input.user_id input.role by s in
        let told =
          or_violation-state errors "household: add member: %w" "household_members_pkey"
            Sentinel.household_member_exists query s in
        ground arith

    pub create_and_add_hidden :
        (household_id : Uuid) (input : NewUserInput) (caller_id : Uuid) (s : S)
        → seen
            (create_and_add
              (household_repo errors households)
              (household_user_creator (user_repo errors users) hasher)
              household_id
              input
              caller_id
              s).1
          ≡ seen s
    unfolding create_and_add create
    create_and_add_hidden household_id input caller_id s =
        let registered : RegisterInput = record {
          email = input.email;
          display_name = input.display_name;
          password = input.password;
        } in
        let call = register (user_repo errors users) hasher registered caller_id s in
        let first =
          register_hidden (user_repo errors users) hasher seen hidden.hash_hidden insert_user_hidden
            registered caller_id s in
        elim (Result-cases call.0) [
          | inr (inl (e, failed)) ↦ ground arith
          | inr (inr panicked) ↦ ground arith
          | inl (u, created) ↦
              let member : AddMemberInput = record { user_id = u.id; role = role_member } in
              ground (arith, insert_member_hidden household_id member caller_id call.1)
        ]

  module _ (working : S → Tables) (inserts : Inserts users households working) where
    pub user_created :
        (input : RegisterInput) (hash : String) (caller_id : Uuid) (s : S) (u : User.User)
        → (Users.create errors users input hash caller_id s).0 ≡ ok u
        → (working (Users.create errors users input hash caller_id s).1).email_of u.id
          ≡ some input.email
    unfolding Users.create Users.user_from_row
    user_created input hash caller_id s u done =
        let by = uuid_to_pg_uuid caller_id in
        let query = users.create_user input.email hash input.display_name by by in
        let told =
          or_violation errors "user: create: %w" "users_email_unique_active"
            Sentinel.user_email_taken query s in
        let state =
          or_violation-state errors "user: create: %w" "users_email_unique_active"
            Sentinel.user_email_taken query s in
        elim (Result-cases told.0) [
          | inr (inl (e, failed)) ↦ absurd (ground arith)
          | inr (inr panicked) ↦ absurd (ground arith)
          | inl (row, returned) ↦
              let found =
                or_violation-ok errors "user: create: %w" "users_email_unique_active"
                  Sentinel.user_email_taken query s row returned in
              let stored =
                inserts.user_inserted input.email hash input.display_name by by s row found in
              let id : u.id ≡ row.id = ground arith in
              let same : (Users.create errors users input hash caller_id s).1 ≡ (query s).1 =
                ground arith in
              subst (λ s'. (working s').email_of u.id ≡ some input.email) (sym same)
                (subst (λ i. (working (query s).1).email_of i ≡ some input.email) (sym id) stored)
        ]

    pub member_added :
        (household_id : Uuid) (input : AddMemberInput) (caller_id : Uuid) (s : S)
        (m : pfm_go.Household.Membership)
        → (Households.add_member errors households household_id input caller_id s).0 ≡ ok m
        → let s' = (Households.add_member errors households household_id input caller_id s).1 in
          ((working s').role_of household_id input.user_id ≡ some input.role)
          × ((working s').email_of ≡ (working s).email_of)
    unfolding Households.add_member
    member_added household_id input caller_id s m done =
        let by = uuid_to_pg_uuid caller_id in
        let query = households.create_household_member household_id input.user_id input.role by in
        let told =
          or_violation errors "household: add member: %w" "household_members_pkey"
            Sentinel.household_member_exists query s in
        let state =
          or_violation-state errors "household: add member: %w" "household_members_pkey"
            Sentinel.household_member_exists query s in
        elim (Result-cases told.0) [
          | inr (inl (e, failed)) ↦ absurd (ground arith)
          | inr (inr panicked) ↦ absurd (ground arith)
          | inl (row, returned) ↦
              let found =
                or_violation-ok errors "household: add member: %w" "household_members_pkey"
                  Sentinel.household_member_exists query s row returned in
              let (role, kept) =
                inserts.member_inserted household_id input.user_id input.role by s row found in
              let same : (Households.add_member errors households household_id input caller_id s).1
                  ≡ (query s).1 =
                ground arith in
              (
                ap (λ s'. (working s').role_of household_id input.user_id) same ∙ role,
                ap (λ s'. (working s').email_of) same ∙ kept,
              )
        ]

    -- After both steps the two tables have the user and the membership.
    pub create_and_add_written :
        (household_id : Uuid) (input : NewUserInput) (caller_id : Uuid) (c : CreatedMember) (t : S)
        → let r =
            create_and_add
              (household_repo errors households)
              (household_user_creator (user_repo errors users) hasher)
              household_id
              input
              caller_id
              t in
          r.0 ≡ ok c
          → ((working r.1).email_of c.user.id ≡ some input.email)
            × ((working r.1).role_of household_id c.user.id ≡ some role_member)
    create_and_add_written household_id input caller_id c t done =
        let repo = user_repo errors users in
        let created = create repo hasher input caller_id t in
        let member : AddMemberInput = record { user_id = c.user.id; role = role_member } in
        let (first, second, state) =
          create_and_add-steps (household_repo errors households)
            (household_user_creator repo hasher) household_id input caller_id c t done in
        let (hash, t1, u, inserted, id) =
          create-registered repo hasher input caller_id t c.user first in
        let registered : RegisterInput = record {
          email = input.email;
          display_name = input.display_name;
          password = input.password;
        } in
        let stored = user_created registered hash caller_id t1 u (ap (λ p. p.0) inserted) in
        let stored' : (working created.1).email_of c.user.id ≡ some input.email =
          subst (λ i. (working created.1).email_of i ≡ some input.email) (sym id)
            (subst (λ s'. (working s').email_of u.id ≡ some input.email) (ap (λ p. p.1) inserted)
              stored) in
        let (role, kept) =
          member_added household_id member caller_id created.1 c.membership second in
        (
          ap (λ s'. (working s').email_of c.user.id) state ∙ ap (λ g. g c.user.id) kept ∙ stored',
          ap (λ s'. (working s').role_of household_id c.user.id) state ∙ role,
        )
