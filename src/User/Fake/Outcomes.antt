-- ===== src/User/Fake/Outcomes.antt =====
-- internal/adapter/postgres/fake_user_repo.go: the outcomes of each operation.
use pfm_go.Common.{
  ℕ, String, true, false, ◌≡◌, sym, ap, ◌∙◌, ◌⊎◌, inl, inr, none, some, ==_refl, nat_eq, string_eq,
  Bool-cases, Option-cases, arith,
}
use pfm_go.Common.Int.{ℤ, eqb_ℤ}
use pfm_go.Types.{Uuid}
use pfm_go.Message.{Error, sentinel, wrapped, Sentinel}
use pfm_go.Effect.{ok, err}
use pfm_go.GoMap.{lookup, contains}
use pfm_go.GoMap.Laws.{contains-lookup, lookup-insert}
use pfm_go.User.{User, RegisterInput}
use pfm_go.User.Fake.{
  FakeUserRepository, find_by_email, put, store, new_user, create, update, remove, deactivate,
}

module _ (uuid_new : ℕ → Uuid) (to_lower : String → String) where
  pub find_by_email-found :
      (email : String) (u : User) (f : FakeUserRepository)
      → f.err ≡ none
      → lookup (to_lower email) f.by_email ≡ some u
      → find_by_email uuid_new to_lower email f ≡ (ok u, f)
  unfolding find_by_email
  find_by_email-found email u f working found = rw (working, found)

  find_by_email-missing :
      (email : String) (f : FakeUserRepository)
      → f.err ≡ none
      → lookup (to_lower email) f.by_email ≡ none
      → find_by_email uuid_new to_lower email f
        ≡ (err (wrapped "user: find by email: %w" (sentinel Sentinel.login_invalid_credentials)), f)
  unfolding find_by_email
  find_by_email-missing email f working missing = rw (working, missing)

  -- A new user is stored under an e-mail that is free; otherwise nothing changes.
  pub create-cases :
      (input : RegisterInput) (hash : String) (caller_id : Uuid) (f : FakeUserRepository)
      → let u = new_user uuid_new to_lower input hash caller_id f.drawn in
        let r = create uuid_new to_lower input hash caller_id f in
        ((e : Error) × (r ≡ (err e, f)))
        ⊎ ((lookup (to_lower u.email) f.by_email ≡ none)
            × (f.err ≡ none)
            × (r ≡ (ok u, store uuid_new to_lower u f)))
  unfolding create new_user
  create-cases input hash caller_id f = elim (Option-cases f.err) [
    | inr (e, failing) ↦ inl (e, rw failing)
    | inl working ↦ elim (Bool-cases (contains (to_lower input.email) f.by_email)) [
      | inl taken ↦
          inl (wrapped "user: create: %w" (sentinel Sentinel.user_email_taken), rw (working, taken))
      | inr free ↦
          inr (contains-lookup (to_lower input.email) f.by_email free, working, rw (working, free))
    ]
  ]

  module _ (format : String) (change : User → User) (id : Uuid) (v : ℤ)
      (f : FakeUserRepository) where
    pub update-stored :
        (u : User)
        → f.err ≡ none
        → lookup id f.by_id ≡ some u
        → eqb_ℤ u.version v ≡ true
        → update uuid_new to_lower format change id v f
          ≡ (ok (change u), put uuid_new to_lower id (change u) f)
    unfolding update
    update-stored u working found current = rw (working, found, current)

    pub update_conflict :
        (u : User)
        → f.err ≡ none
        → lookup id f.by_id ≡ some u
        → eqb_ℤ u.version v ≡ false
        → update uuid_new to_lower format change id v f
          ≡ (err (wrapped format (sentinel Sentinel.user_version_conflict)), f)
    unfolding update
    update_conflict u working found stale = rw (working, found, stale)

    pub update-cases :
        ((update uuid_new to_lower format change id v f).1 ≡ f)
        ⊎ ((u : User) × (lookup id f.by_id ≡ some u)
            × ((update uuid_new to_lower format change id v f).1
                ≡ put uuid_new to_lower id (change u) f))
    unfolding update
    update-cases = elim (Option-cases f.err) [
      | inr (e, failing) ↦ inl (rw failing)
      | inl working ↦ elim (Option-cases (lookup id f.by_id)) [
        | inl missing ↦ inl (rw (working, missing))
        | inr (u, found) ↦ elim (Bool-cases (eqb_ℤ u.version v)) [
          | inr conflict ↦ inl (rw (working, found, conflict))
          | inl current ↦ inr (u, found, rw (working, found, current))
        ]
      ]
    ]

  pub deactivate-cases :
      (id caller_id : Uuid) (f : FakeUserRepository)
      → ((deactivate uuid_new to_lower id caller_id f).1 ≡ f)
        ⊎ ((u : User) × (lookup id f.by_id ≡ some u)
            × ((deactivate uuid_new to_lower id caller_id f).1 ≡ remove uuid_new to_lower id u f))
  unfolding deactivate
  deactivate-cases id caller_id f = elim (Option-cases f.err) [
    | inr (e, failing) ↦ inl (rw failing)
    | inl working ↦ elim (Option-cases (lookup id f.by_id)) [
      | inl missing ↦ inl (ground arith)
      | inr (u, found) ↦ inr (u, found, ground arith)
    ]
  ]

  -- A user that `Create` returned stands under its e-mail, with the given hash.
  pub create-stored :
      (input : RegisterInput) (hash : String) (caller_id : Uuid) (u : User)
      (f f' : FakeUserRepository)
      → create uuid_new to_lower input hash caller_id f ≡ (ok u, f')
      → (f'.err ≡ none)
        × (lookup (to_lower input.email) f'.by_email ≡ some u)
        × (u.password_hash ≡ hash)
  unfolding store new_user put
  create-stored input hash caller_id u f f' created = elim (create-cases input hash caller_id f) [
    | inl (e, failed) ↦ let never = sym (ap (λ r. r.0) failed) ∙ ap (λ r. r.0) created in cc
    | inr (free, working, stored) ↦
        let made = new_user uuid_new to_lower input hash caller_id f.drawn in
        let there : lookup (to_lower input.email) (store uuid_new to_lower made f).by_email
            ≡ some made =
          lookup-insert (to_lower input.email) (to_lower input.email) made f.by_email
          ∙ rw (==_refl (to_lower input.email)) in
        let returned : ok made ≡ ok u = sym (ap (λ r. r.0) stored) ∙ ap (λ r. r.0) created in
        let after : store uuid_new to_lower made f ≡ f' =
          sym (ap (λ r. r.1) stored) ∙ ap (λ r. r.1) created in
        let is_made : made ≡ u = ground arith in
        (
          sym (ap (λ g. g.err) after) ∙ working,
          ap (λ g. lookup (to_lower input.email) g.by_email) (sym after) ∙ there ∙ ap some is_made,
          sym (ap (λ v. v.password_hash) is_made),
        )
  ]
