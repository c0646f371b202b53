-- ===== src/Household/Members/Steps.antt =====
-- internal/domain/household/member_logic.go and cmd/pfm/main.go: the steps of a call that succeeds,
-- over any storages.
use pfm_go.Common.{String, ◌≡◌, ap, sym, ◌∙◌, inl, inr, Bool-cases, arith}
use pfm_go.Types.{Uuid, role_member}
use pfm_go.Message.{Sentinel, is}
use pfm_go.Effect.{ok, Result-cases}
use pfm_go.Validate.Collects.{check_pass, check_fail, nil-cases}
use pfm_go.User.{RegisterInput, PasswordHasher}
use pfm_go.User
use pfm_go.User.Logic.{register, register_result}
use pfm_go.User.Logic.Ends.{register-create}
use pfm_go.Household.{
  Repository, UserCreator, NewUserInput, CreatedUser, CreatedMember, AddMemberInput,
}
use pfm_go.Household.Members.{create_and_add}
use pfm_go.Household.Members.Creator.{create}

-- Both steps were taken, one after the other, and nothing after them.
pub create_and_add-steps :
    {S : Type 0} (repo : Repository S) (users : UserCreator S) (household_id : Uuid)
    (input : NewUserInput) (caller_id : Uuid) (c : CreatedMember) (t : S)
    → (create_and_add repo users household_id input caller_id t).0 ≡ ok c
    → let t' = (users.create input caller_id t).1 in
      let member : AddMemberInput = record { user_id = c.user.id; role = role_member } in
      ((users.create input caller_id t).0 ≡ ok c.user)
      × ((repo.add_member household_id member caller_id t').0 ≡ ok c.membership)
      × ((create_and_add repo users household_id input caller_id t).1
          ≡ (repo.add_member household_id member caller_id t').1)
unfolding create_and_add
create_and_add-steps repo users household_id input caller_id c t done =
    let t' = (users.create input caller_id t).1 in
    elim (Result-cases (users.create input caller_id t).0) [
      | inr (inl (e, failed)) ↦ absurd (ground arith)
      | inr (inr panicked) ↦ absurd (ground arith)
      | inl (u, created) ↦
          let member : AddMemberInput = record { user_id = u.id; role = role_member } in
          elim (Result-cases (repo.add_member household_id member caller_id t').0) [
            | inr (inl (e, failed)) ↦ absurd (ground arith)
            | inr (inr panicked) ↦ absurd (ground arith)
            | inl (m, added) ↦ (ground arith, ground arith, ground arith)
          ]
    ]

-- A user that is created has been registered, and the registration has stored it.
pub create-registered :
    {S : Type 0} (repo : User.Repository S) (hasher : PasswordHasher S) (input : NewUserInput)
    (caller_id : Uuid) (t : S) (c : CreatedUser)
    → (create repo hasher input caller_id t).0 ≡ ok c
    → let registered : RegisterInput = record {
      email = input.email;
      display_name = input.display_name;
      password = input.password;
    } in
      (hash : String) × (t1 : S) × (u : User.User) × (repo.create registered hash caller_id t1
        ≡ (ok u, (create repo hasher input caller_id t).1))
      × (c.id ≡ u.id)
unfolding create
create-registered repo hasher input caller_id t c done =
    let registered : RegisterInput = record {
      email = input.email;
      display_name = input.display_name;
      password = input.password;
    } in
    let call = register repo hasher registered caller_id t in
    elim (Result-cases call.0) [
      | inr (inl (e, failed)) ↦ absurd (ground arith)
      | inr (inr panicked) ↦ absurd (ground arith)
      | inl (u, succeeded) ↦
          let whole : call ≡ (ok u, call.1) = ground arith in
          let (hash, t1, hashed, created) =
            register-create repo hasher registered caller_id u t call.1 whole in
          let state : (create repo hasher input caller_id t).1 ≡ call.1 = ground arith in
          (hash, t1, u, created ∙ ap (λ s. (ok u, s)) (sym state), ground arith)
    ]

pub register_hidden :
    {S D : Type 0} (repo : User.Repository S) (hasher : PasswordHasher S) (seen : S → D)
    → ((password : String) (s : S) → seen (hasher.hash password s).1 ≡ seen s)
    → ((input : RegisterInput) (hash : String) (caller_id : Uuid) (s : S)
        → seen (repo.create input hash caller_id s).1 ≡ seen s)
    → (input : RegisterInput) (caller_id : Uuid) (s : S)
    → seen (register repo hasher input caller_id s).1 ≡ seen s
unfolding register
register_hidden repo hasher seen hashes creates input caller_id s =
    let t = (hasher.hash input.password s).1 in
    let first = hashes input.password s in
    elim (nil-cases (register_result input)) [
      | inr violated ↦ let stop = check_fail _ s violated in ground arith
      | inl passes ↦
          let go = check_pass _ s passes in
          elim (Result-cases (hasher.hash input.password s).0) [
            | inr (inl (e, failed)) ↦ ground arith
            | inr (inr panicked) ↦ ground arith
            | inl (hash, hashed) ↦
                let second = creates input hash caller_id t in
                elim (Result-cases (repo.create input hash caller_id t).0) [
                  | inl (u, created) ↦ ground arith
                  | inr (inr panicked) ↦ ground arith
                  | inr (inl (e, failed)) ↦ elim (Bool-cases (is e Sentinel.user_email_taken)) [
                    | inl taken ↦ ground arith
                    | inr other ↦ ground arith
                  ]
                ]
          ]
    ]
