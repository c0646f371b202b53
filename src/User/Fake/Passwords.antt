-- ===== src/User/Fake/Passwords.antt =====
-- Changing a password through `UserLogic` over the users' storage in memory.
use pfm_go.Common.{
  ℕ, String, Bool, true, false, not, ◌≡◌, ◌≢◌, ◌⊎◌, ◌==◌, string_eq, ap, ◌∙◌, arith, [], none, some,
  nat_eq, Bool-cases, inl, inr, if◌then◌else◌,
}
use pfm_go.Common.Int.{ℤ, pos, eqb_ℤ, eqb_ℤ_iff}
use pfm_go.Common.Int64.{add64}
use pfm_go.GoMap.Laws.{lookup-insert}
use pfm_go.Types.{Uuid}
use pfm_go.Message.{Error, sentinel, wrapped, Sentinel}
use pfm_go.Effect.{Result, ok, err}
use pfm_go.GoMap.{lookup}
use pfm_go.User.{User, ChangePasswordInput, Repository, PasswordHasher}
use pfm_go.User.Logic
use pfm_go.User.Logic.{passwords_result}
use pfm_go.User.Logic.Ends.{
  change_error, change_password-refuses, change_password-writes, change_password-fails,
}
use pfm_go.User.Fake.{
  FakeUserRepository, find_by_id, put, with_password, change_password, fake_user_repository,
}
use pfm_go.User.Fake.Outcomes.{update-stored, update_conflict}

module _ (uuid_new : ℕ → Uuid) (to_lower : String → String) where
  abbrev pub repo : Repository FakeUserRepository
  repo = fake_user_repository uuid_new to_lower

  -- What a valid change answers and leaves behind, by the verdict on the old password, whether
  -- the version is the expected one, and the hash of the new password.
  abbrev changed :
      Bool
      → Bool
      → String
      → Uuid
      → Uuid
      → User
      → FakeUserRepository
      → Result User × FakeUserRepository
  changed verified current hash id caller_id u f =
      if not verified
      then (err (change_error (sentinel Sentinel.login_invalid_credentials)), f)
      else (if not current
          then (
            err (
                change_error
                  (wrapped "user: change password: %w" (sentinel Sentinel.user_version_conflict))),
            f,
          )
          else (
            ok (with_password hash caller_id u),
            put uuid_new to_lower id (with_password hash caller_id u) f,
          ))

  -- The user after the change.
  abbrev pub next_user : String → Uuid → User → User
  next_user hash caller_id u = record u {
    password_hash = hash;
    version = add64 u.version (pos 1);
    updated_by = caller_id;
  }

  abbrev pub version_conflict : Error
  version_conflict =
      change_error (wrapped "user: change password: %w" (sentinel Sentinel.user_version_conflict))

  find_by_id-found :
      (id : Uuid) (u : User) (f : FakeUserRepository)
      → f.err ≡ none
      → lookup id f.by_id ≡ some u
      → find_by_id id f ≡ (ok u, f)
  unfolding find_by_id
  find_by_id-found id u f working found = rw (working, found)

  module _ (hasher : PasswordHasher FakeUserRepository) where
    change_password-changed :
        (id : Uuid) (input : ChangePasswordInput) (v : ℤ) (caller_id : Uuid)
        (f : FakeUserRepository) (u : User) (verified : Bool) (hash : String)
        → f.err ≡ none
        → lookup id f.by_id ≡ some u
        → passwords_result input ≡ []
        → hasher.verify input.old_password u.password_hash f ≡ (ok verified, f)
        → hasher.hash input.new_password f ≡ (ok hash, f)
        → Logic.change_password repo hasher id input v caller_id f
          ≡ changed verified (eqb_ℤ u.version v) hash id caller_id u f
    unfolding change_password
    change_password-changed id input v caller_id f u false hash working found passes verdict
          hashed =
        change_password-refuses repo hasher id input v caller_id f passes u
          (find_by_id-found id u f working found) verdict
    change_password-changed id input v caller_id f u true hash working found passes verdict hashed =
        elim (Bool-cases (eqb_ℤ u.version v)) [
          | inl current ↦ rw current (
              change_password-writes repo hasher id input v caller_id f passes u
                (find_by_id-found id u f working found) hash verdict hashed _ _
                (update-stored uuid_new to_lower _ (with_password hash caller_id) id v f u working
                  found current))
          | inr stale ↦ rw stale (
              change_password-fails repo hasher id input v caller_id f passes u
                (find_by_id-found id u f working found) hash verdict hashed _ _
                (update_conflict uuid_new to_lower _ (with_password hash caller_id) id v f u working
                  found stale))
        ]

    -- With no injected error, a valid input, an active user, and a hasher that gives a verdict on
    -- the old password and a hash of the new one without touching the storage: `ChangePassword`
    -- refuses a wrong old password as invalid credentials and a version that is not the expected
    -- one as a conflict, both without effect. Otherwise it returns the user with the new hash, the
    -- next version and the caller as its author, and all else as before; both indexes then find
    -- that user, and every other user as before.
    pub change_password-Changes :
        (id : Uuid) (input : ChangePasswordInput) (v : ℤ) (caller_id : Uuid)
        (f : FakeUserRepository) (u : User) (verified : Bool) (hash : String)
        → f.err ≡ none
        → lookup id f.by_id ≡ some u
        → passwords_result input ≡ []
        → hasher.verify input.old_password u.password_hash f ≡ (ok verified, f)
        → hasher.hash input.new_password f ≡ (ok hash, f)
        → let r = Logic.change_password repo hasher id input v caller_id f in
          ((verified ≡ false)
            × (r ≡ (err (change_error (sentinel Sentinel.login_invalid_credentials)), f)))
          ⊎ ((verified ≡ true) × (u.version ≢ v) × (r ≡ (err version_conflict, f)))
          ⊎ ((verified ≡ true)
              × (u.version ≡ v)
              × (r.0 ≡ ok (next_user hash caller_id u))
              × ((i : Uuid)
                  → lookup i r.1.by_id
                    ≡ (if id == i then some (next_user hash caller_id u) else lookup i f.by_id))
              × ((e : String)
                  → lookup e r.1.by_email ≡ (
                      if to_lower u.email == e
                      then some (next_user hash caller_id u)
                      else lookup e f.by_email)))
    unfolding with_password put
    change_password-Changes id input v caller_id f u verified hash working found passes verdict
          hashed =
        let e =
          change_password-changed id input v caller_id f u verified hash working found passes
            verdict hashed in
        let outcome = changed verified (eqb_ℤ u.version v) hash id caller_id u f in
        elim (Bool-cases verified) [
          | inr wrong ↦
              let told : outcome
                  ≡ (err (change_error (sentinel Sentinel.login_invalid_credentials)), f) =
                rw wrong in
              inl (wrong, e ∙ told)
          | inl right ↦ elim (Bool-cases (eqb_ℤ u.version v)) [
            | inr stale ↦
                let told : outcome ≡ (err version_conflict, f) = rw (right, stale) in
                inr (inl (right, ground (arith, eqb_ℤ_iff u.version v), e ∙ told))
            | inl current ↦
                let next = next_user hash caller_id u in
                let stored : outcome ≡ (ok next, put uuid_new to_lower id next f) =
                  rw (right, current) in
                let e' = e ∙ stored in
                inr (
                  inr (
                    right,
                    (eqb_ℤ_iff u.version v).0 current,
                    ap (λ r. r.0) e',
                    λ i. ap (λ r. lookup i r.1.by_id) e' ∙ lookup-insert id i next f.by_id,
                    λ e''.
                        ap (λ r. lookup e'' r.1.by_email) e'
                        ∙ lookup-insert (to_lower u.email) e'' next f.by_email,
                  ))
          ]
        ]
