-- ===== src/Household/Members/Atomic.antt =====
-- internal/domain/household/member_logic.go over the users' logic, the storages of
-- internal/adapter/postgres and internal/platform/database/transactor.go: a user of a household is
-- created with the membership, or not at all.
use pfm_go.Common.{Bool, false, some, ◌≡◌, ap, ◌∙◌, ◌⊎◌, inl, inr, arith}
use pfm_go.Types.{Uuid, role_member}
use pfm_go.Effect.{ok, annotate, IsFailure, annotate-IsFailure, annotate-state}
use pfm_go.Database.Postgres.{
  Driver, postgres_transactor, run_atomic, IsDurable, run_atomic-durable, IsClosing,
  run_atomic-closes,
}
use pfm_go.User.{PasswordHasher}
use pfm_go.Household.{NewUserInput, CreatedMember}
use pfm_go.Household.Members.{create_and_add, create_household_user}
use pfm_go.Household.Members.Creator.{household_user_creator}
use pfm_go.Postgres.{DriverErrors}
use pfm_go.Postgres.Users
use pfm_go.Postgres.Users.{user_repo}
use pfm_go.Postgres.Households
use pfm_go.Postgres.Households.{household_repo}
use pfm_go.Household.Members.Inserts.{
  Tables, Inserts, AreHidden, create_and_add_hidden, create_and_add_written,
}

-- A commit publishes what its transaction has.
abbrev pub Publishes : {S : Type 0} → Driver S → (S → Tables) → (S → Tables) → Type 0
Publishes {S} driver working seen =
    (s : S) → (driver.commit s).0 ≡ ok tt → seen (driver.commit s).1 ≡ working s

module _ (errors : DriverErrors) {S : Type 0} (users : Users.Queries S)
    (households : Households.Queries S) (hasher : PasswordHasher S) (driver : Driver S)
    (working seen : S → Tables) (is_open : S → Bool) where
  -- All or nothing: over PostgreSQL a user of a household is created and added as a member, and
  -- then others see the user with the given e-mail, and the membership with the role of a member;
  -- or the call fails, and others see the users and the members as before. In either case no
  -- transaction stays open. The insertions, the hasher and the driver do what is documented of
  -- them, and the call does not stand inside another transaction.
  pub create_household_user-IsAtomic :
      Inserts users households working
      → AreHidden users households hasher seen
      → IsDurable driver seen
      → Publishes driver working seen
      → IsClosing driver is_open
      → (household_id : Uuid) (input : NewUserInput) (caller_id : Uuid) (s : S) → is_open s ≡ false
      → let r =
          create_household_user
            (household_repo errors households)
            (household_user_creator (user_repo errors users) hasher)
            (postgres_transactor driver false)
            household_id
            input
            caller_id
            s in
        (is_open r.1 ≡ false)
        × (((c : CreatedMember) × (r.0 ≡ ok c)
              × ((seen r.1).email_of c.user.id ≡ some input.email)
              × ((seen r.1).role_of household_id c.user.id ≡ some role_member))
            ⊎ (IsFailure r.0 × (seen r.1 ≡ seen s)))
  unfolding create_household_user
  create_household_user-IsAtomic inserts hidden durable publishes closing household_id input
        caller_id s closed =
      let fn =
        create_and_add (household_repo errors households)
          (household_user_creator (user_repo errors users) hasher) household_id input caller_id in
      let told =
        annotate-state "household logic: create household user: %w" (run_atomic driver false fn)
          s in
      let r =
        annotate "household logic: create household user: %w" (run_atomic driver false fn) s in
      (
        ap is_open told ∙ run_atomic-closes driver is_open closing fn s closed,
        elim (run_atomic-durable driver seen durable fn s (
            create_and_add_hidden errors users households hasher seen hidden household_id input
              caller_id)) [
                | inr (fails, kept) ↦ inr (
                  annotate-IsFailure "household logic: create household user: %w"
                      (run_atomic driver false fn) s fails,
                  ap seen told ∙ kept,
                )
                | inl (c, _, done, published, committed) ↦
                    let begun = (driver.begin s).1 in
                    let (email, role) =
                      create_and_add_written errors users households hasher working inserts
                        household_id input caller_id c begun done in
                    let now : seen r.1 ≡ working (fn begun).1 =
                      ap seen told
                      ∙ ap (λ p. seen p.1) committed
                      ∙ publishes (fn begun).1 published in
                    inl (
                      c,
                      ground arith,
                      ap (λ v. v.email_of c.user.id) now ∙ email,
                      ap (λ v. v.role_of household_id c.user.id) now ∙ role,
                    )
              ],
      )
