-- ===== src/User/Fake/Reach.antt =====
-- The states of the users' storage that calls reach.
use pfm_go.Common.{ℕ, String, ◌≡◌, refl, ap, sym, ◌∙◌, ◌↔◌, none, some, nat_eq, string_eq, arith}
use pfm_go.Common.Int.{ℤ}
use pfm_go.Types.{Uuid}
use pfm_go.Effect.{ok}
use pfm_go.GoMap.{lookup}
use pfm_go.User.{User, RegisterInput, UpdateProfileInput}
use pfm_go.User.Fake.{
  FakeUserRepository, new_fake_user_repository, find_by_id, find_by_email, create, update_profile,
  change_password, with_profile, with_password, deactivate,
}
use pfm_go.User.Fake.Index.{IsIndexed, create-IsIndexed, update-IsIndexed, deactivate-IsIndexed}

module _ (uuid_new : ℕ → Uuid) (to_lower : String → String) where
  -- One call that may write. `Create` needs an id that no user has.
  pub data Step : FakeUserRepository → FakeUserRepository → Type 0 where
    creates :
        (input : RegisterInput) (hash : String) (caller_id : Uuid) (f : FakeUserRepository)
        → lookup (uuid_new f.drawn) f.by_id ≡ none
        → Step f (create uuid_new to_lower input hash caller_id f).1
    updates_profile :
        (id : Uuid) (input : UpdateProfileInput) (v : ℤ) (caller_id : Uuid) (f : FakeUserRepository)
        → Step f (update_profile uuid_new to_lower id input v caller_id f).1
    changes_password :
        (id : Uuid) (hash : String) (v : ℤ) (caller_id : Uuid) (f : FakeUserRepository)
        → Step f (change_password uuid_new to_lower id hash v caller_id f).1
    deactivates :
        (id caller_id : Uuid) (f : FakeUserRepository)
        → Step f (deactivate uuid_new to_lower id caller_id f).1

  pub data Reachable : FakeUserRepository → Type 0 where
    initial : Reachable new_fake_user_repository
    continues : {f f' : FakeUserRepository} → Reachable f → Step f f' → Reachable f'

  abbrev Indexed : FakeUserRepository → Type 0
  Indexed = IsIndexed uuid_new to_lower

  Step-IsIndexed : (f f' : FakeUserRepository) → Step f f' → Indexed f → Indexed f'
  unfolding update_profile change_password with_profile with_password
  Step-IsIndexed _ _ (creates input hash caller_id f unused) h =
      create-IsIndexed uuid_new to_lower input hash caller_id f h unused
  Step-IsIndexed _ _ (updates_profile id input v caller_id f) h =
      update-IsIndexed uuid_new to_lower _ (with_profile input caller_id) id v f (λ u. refl)
        (λ u. refl) h
  Step-IsIndexed _ _ (changes_password id hash v caller_id f) h =
      update-IsIndexed uuid_new to_lower _ (with_password hash caller_id) id v f (λ u. refl)
        (λ u. refl) h
  Step-IsIndexed _ _ (deactivates id caller_id f) h =
      deactivate-IsIndexed uuid_new to_lower id caller_id f h

  pub Reachable-IsIndexed : (f : FakeUserRepository) → Reachable f → Indexed f
  unfolding lookup
  Reachable-IsIndexed _ initial = record {
    keyed = λ i u e. cc;
    mailed = λ i u e. cc;
    active = λ k u e. cc;
  }
  Reachable-IsIndexed f (continues before step) =
      Step-IsIndexed _ f step (Reachable-IsIndexed _ before)

  find_by_id_lem :
      (id : Uuid) (u : User) (f : FakeUserRepository)
      → f.err ≡ none
      → (find_by_id id f ≡ (ok u, f)) ↔ (lookup id f.by_id ≡ some u)
  unfolding find_by_id
  find_by_id_lem id u f working = ground arith

  find_by_email_lem :
      (email : String) (u : User) (f : FakeUserRepository)
      → f.err ≡ none
      → (find_by_email uuid_new to_lower email f ≡ (ok u, f))
        ↔ (lookup (to_lower email) f.by_email ≡ some u)
  unfolding find_by_email
  find_by_email_lem email u f working = ground arith

  -- In every state that calls of the storage reach from the empty one, where `Create` draws an id
  -- that no user has, and with no injected error, `FindByID` finds a user under its identifier
  -- exactly when `FindByEmail` finds the same value under its e-mail.
  pub finders_agree :
      (f : FakeUserRepository)
      → Reachable f
      → f.err ≡ none
      → (u : User)
      → (find_by_id u.id f ≡ (ok u, f)) ↔ (find_by_email uuid_new to_lower u.email f ≡ (ok u, f))
  finders_agree f reached working u =
      let h = Reachable-IsIndexed f reached in
      let by_id = find_by_id_lem u.id u f working in
      let by_email = find_by_email_lem u.email u f working in
      (
        λ e. by_email.1 (h.mailed u.id u (by_id.0 e)),
        λ e. by_id.1 (h.active (to_lower u.email) u (by_email.0 e)).0,
      )

  -- In every state that calls of the storage reach from the empty one, where `Create` draws an id
  -- that no user has, two active users whose e-mails are equal in lower case are the same.
  pub Reachable-emails_are_unique :
      (f : FakeUserRepository)
      → Reachable f
      → (i j : Uuid) (u v : User) → lookup i f.by_id ≡ some u
      → lookup j f.by_id ≡ some v
      → to_lower u.email ≡ to_lower v.email
      → (i ≡ j) × (u ≡ v)
  Reachable-emails_are_unique f reached i j u v found_u found_v same =
      let h = Reachable-IsIndexed f reached in
      let under_u = h.mailed i u found_u in
      let under_v = h.mailed j v found_v in
      let at_u = h.keyed i u found_u in
      let at_v = h.keyed j v found_v in
      let e : some u ≡ some v = sym under_u ∙ ap (λ k. lookup k f.by_email) same ∙ under_v in
      ground (arith, e)
