-- ===== src/User/Fake/Index.antt =====
-- The two indexes of users hold the same users, and every operation keeps it so.
use pfm_go.Common.{
  ℕ, ◌+◌, String, ◌≡◌, sym, ap, subst, ◌∙◌, inl, inr, none, some, ==_iff, ==_refl, nat_eq,
  string_eq, arith,
}
use pfm_go.Common.Int.{ℤ}
use pfm_go.Types.{Uuid}
use pfm_go.GoMap.{lookup}
use pfm_go.GoMap.Laws.{lookup-insert, lookup-delete}
use pfm_go.User.{User, RegisterInput}
use pfm_go.User.Fake.{FakeUserRepository, put, store, new_user, create, update, remove, deactivate}
use pfm_go.User.Fake.Outcomes.{create-cases, update-cases, deactivate-cases}

module _ (uuid_new : ℕ → Uuid) (to_lower : String → String) where
  -- A user stands under its identifier and, the same value, under its e-mail in lower case; and
  -- the index of e-mails has no other entry.
  pub record IsIndexed (f : FakeUserRepository) : Type 0 where
    pub keyed : (id : Uuid) (u : User) → lookup id f.by_id ≡ some u → u.id ≡ id
    pub mailed :
        (id : Uuid) (u : User)
        → lookup id f.by_id ≡ some u
        → lookup (to_lower u.email) f.by_email ≡ some u
    pub active :
        (k : String) (u : User)
        → lookup k f.by_email ≡ some u
        → (lookup u.id f.by_id ≡ some u) × (to_lower u.email ≡ k)

  pub put-IsIndexed :
      (u : User) (f : FakeUserRepository)
      → IsIndexed f
      → ((v : User) → lookup u.id f.by_id ≡ some v → to_lower v.email ≡ to_lower u.email)
      → ((v : User) → lookup (to_lower u.email) f.by_email ≡ some v → v.id ≡ u.id)
      → IsIndexed (put uuid_new to_lower u.id u f)
  unfolding put
  put-IsIndexed u f h same_mail same_id = record {
    keyed = λ j v e. ground (arith, lookup-insert u.id j u f.by_id, ==_iff u.id j, h.keyed j v);
    mailed = λ j v e. ground (
      arith,
      lookup-insert u.id j u f.by_id,
      ==_iff u.id j,
      h.mailed j v,
      h.keyed j v,
      lookup-insert (to_lower u.email) (to_lower v.email) u f.by_email,
      ==_iff (to_lower u.email) (to_lower v.email),
      ==_refl (to_lower u.email),
      same_id v,
    );
    active = λ k v e. ground (
      arith,
      lookup-insert (to_lower u.email) k u f.by_email,
      ==_iff (to_lower u.email) k,
      h.active k v,
      lookup-insert u.id v.id u f.by_id,
      ==_iff u.id v.id,
      ==_refl u.id,
      same_mail v,
    );
  }

  pub remove-IsIndexed :
      (id : Uuid) (u : User) (f : FakeUserRepository)
      → IsIndexed f
      → lookup id f.by_id ≡ some u
      → IsIndexed (remove uuid_new to_lower id u f)
  unfolding remove
  remove-IsIndexed id u f h stored = record {
    keyed = λ j v e. ground (arith, lookup-delete id j f.by_id, h.keyed j v);
    mailed = λ j v e. ground (
      arith,
      lookup-delete id j f.by_id,
      ==_iff id j,
      h.mailed j v,
      h.mailed id u stored,
      h.keyed j v,
      h.keyed id u stored,
      lookup-delete (to_lower u.email) (to_lower v.email) f.by_email,
      ==_iff (to_lower u.email) (to_lower v.email),
    );
    active = λ k v e. ground (
      arith,
      lookup-delete (to_lower u.email) k f.by_email,
      ==_iff (to_lower u.email) k,
      h.active k v,
      lookup-delete id v.id f.by_id,
      ==_iff id v.id,
    );
  }

  -- A user is created under an identifier that is not in use, or not at all.
  pub create-IsIndexed :
      (input : RegisterInput) (hash : String) (caller_id : Uuid) (f : FakeUserRepository)
      → IsIndexed f
      → lookup (uuid_new f.drawn) f.by_id ≡ none
      → IsIndexed (create uuid_new to_lower input hash caller_id f).1
  unfolding store new_user
  create-IsIndexed input hash caller_id f h unused =
      elim (create-cases uuid_new to_lower input hash caller_id f) [
        | inl (e, failed) ↦ subst IsIndexed (sym (ap (λ r. r.1) failed)) h
        | inr (free, working, stored) ↦
            let drawn : FakeUserRepository = record f { drawn = f.drawn + 1 } in
            subst IsIndexed (sym (ap (λ r. r.1) stored)) (
              put-IsIndexed (new_user uuid_new to_lower input hash caller_id f.drawn) drawn
                (record { keyed = h.keyed; mailed = h.mailed; active = h.active })
                (λ v e. let none_is_some = sym unused ∙ e in cc)
                (λ v e. let none_is_some = sym free ∙ e in cc))
      ]

  -- An update keeps the identifier and the e-mail.
  pub update-IsIndexed :
      (format : String) (change : User → User) (id : Uuid) (v : ℤ) (f : FakeUserRepository)
      → ((u : User) → (change u).id ≡ u.id)
      → ((u : User) → (change u).email ≡ u.email)
      → IsIndexed f
      → IsIndexed (update uuid_new to_lower format change id v f).1
  update-IsIndexed format change id v f same_id same_mail h =
      elim (update-cases uuid_new to_lower format change id v f) [
        | inl same ↦ subst IsIndexed (sym same) h
        | inr (u, found, stored) ↦
            let at_id : (change u).id ≡ id = same_id u ∙ h.keyed id u found in
            let updated : IsIndexed (put uuid_new to_lower (change u).id (change u) f) =
              put-IsIndexed (change u) f h (λ w e. ground (arith, same_mail u, at_id))
                (λ w e. ground (
                  arith,
                  same_mail u,
                  at_id,
                  h.active (to_lower (change u).email) w e,
                  h.mailed id u found,
                  h.keyed id u found,
                )) in
            subst IsIndexed (sym stored)
              (subst (λ i. IsIndexed (put uuid_new to_lower i (change u) f)) at_id updated)
      ]

  pub deactivate-IsIndexed :
      (id caller_id : Uuid) (f : FakeUserRepository)
      → IsIndexed f
      → IsIndexed (deactivate uuid_new to_lower id caller_id f).1
  deactivate-IsIndexed id caller_id f h = elim (deactivate-cases uuid_new to_lower id caller_id f) [
    | inl same ↦ subst IsIndexed (sym same) h
    | inr (u, found, removed) ↦ subst IsIndexed (sym removed) (remove-IsIndexed id u f h found)
  ]
