-- ===== src/Account/Fake/Names.antt =====
-- Every operation of the storage keeps the index of names in step with the accounts, so that no
-- two active accounts of a household share a name.
use pfm_go.Common.{
  ℕ, String, false, ◌≡◌, refl, sym, subst, ◌⊎◌, inl, inr, none, some, nat_eq, string_eq, Bool-cases,
  Option-cases, arith,
}
use pfm_go.Common.Int.{ℤ, eqb_ℤ}
use pfm_go.Types.{Uuid}
use pfm_go.GoMap.{lookup, contains}
use pfm_go.GoMap.Laws.{contains-lookup}
use pfm_go.Account.{Account, CreateInput, UpdateNameInput, UpdateBalanceInput}
use pfm_go.Account.Fake.{
  FakeAccountRepository, name_key, key_of, new_account, store, create, put, with_balance,
  update_balance, is_taken, rename, with_name, update_name, remove, deactivate,
}
use pfm_go.Account.Fake.Index.{
  IsIndexed, store-IsIndexed, rename-IsIndexed, remove-IsIndexed, put-IsIndexed,
}

module _ (uuid_new : ℕ → Uuid) (uuid_string : Uuid → String) (to_lower : String → String) where
  abbrev Indexed : FakeAccountRepository → Type 0
  Indexed = IsIndexed uuid_new uuid_string to_lower

  -- A new account is stored under a name that is free; otherwise nothing changes.
  create-cases :
      (household_id : Uuid) (input : CreateInput) (caller_id : Uuid) (f : FakeAccountRepository)
      → let a = new_account uuid_new uuid_string to_lower household_id input caller_id f.drawn in
        let f' = (create uuid_new uuid_string to_lower household_id input caller_id f).1 in
        (f' ≡ f)
        ⊎ ((lookup (key_of uuid_new uuid_string to_lower a) f.names ≡ none)
            × (f' ≡ store uuid_new uuid_string to_lower a f))
  unfolding create
  create-cases household_id input caller_id f =
      let k = name_key uuid_new uuid_string to_lower household_id input.name in
      elim (Option-cases f.err) [
        | inr (e, failing) ↦ inl (rw failing)
        | inl working ↦ elim (Bool-cases (contains k f.names)) [
          | inl taken ↦ inl (rw (working, taken))
          | inr free ↦ inr (contains-lookup k f.names free, rw (working, free))
        ]
      ]

  -- The index stays in step when an account is created under an identifier that is not in use.
  pub create-IsIndexed :
      (household_id : Uuid) (input : CreateInput) (caller_id : Uuid) (f : FakeAccountRepository)
      → Indexed f
      → lookup (uuid_new f.drawn) f.by_id ≡ none
      → Indexed (create uuid_new uuid_string to_lower household_id input caller_id f).1
  unfolding new_account
  create-IsIndexed household_id input caller_id f h fresh =
      elim (create-cases household_id input caller_id f) [
        | inl same ↦ subst Indexed (sym same) h
        | inr (free, stored) ↦
            subst Indexed (sym stored)
              (store-IsIndexed uuid_new uuid_string to_lower _ f h fresh free)
      ]

  update_name-cases :
      (id : Uuid) (input : UpdateNameInput) (v : ℤ) (caller_id : Uuid) (f : FakeAccountRepository)
      → let f' = (update_name uuid_new uuid_string to_lower id input v caller_id f).1 in
        (f' ≡ f)
        ⊎ ((a : Account) × (lookup id f.by_id ≡ some a)
            × (is_taken uuid_new uuid_string to_lower
                  (name_key uuid_new uuid_string to_lower a.household_id input.name)
                  id
                  f
                ≡ false)
            × (f' ≡ rename uuid_new uuid_string to_lower id a (with_name input caller_id a) f))
  unfolding update_name is_taken
  update_name-cases id input v caller_id f = elim (Option-cases f.err) [
    | inr (e, failing) ↦ inl (rw failing)
    | inl working ↦ elim (Option-cases (lookup id f.by_id)) [
      | inl missing ↦ inl (rw (working, missing))
      | inr (a, found) ↦ elim (Bool-cases (eqb_ℤ a.version v)) [
        | inr conflict ↦ inl (rw (working, found, conflict))
        | inl current ↦
            let k = name_key uuid_new uuid_string to_lower a.household_id input.name in
            elim (Bool-cases (is_taken uuid_new uuid_string to_lower k id f)) [
              | inl taken ↦ inl (rw (working, found, current, taken))
              | inr free ↦ inr (a, found, free, rw (working, found, current, free))
            ]
      ]
    ]
  ]

  -- The index stays in step when an account is renamed, also to another spelling of its name.
  pub update_name-IsIndexed :
      (id : Uuid) (input : UpdateNameInput) (v : ℤ) (caller_id : Uuid) (f : FakeAccountRepository)
      → Indexed f
      → Indexed (update_name uuid_new uuid_string to_lower id input v caller_id f).1
  unfolding with_name
  update_name-IsIndexed id input v caller_id f h = elim (update_name-cases id input v caller_id f) [
    | inl same ↦ subst Indexed (sym same) h
    | inr (a, found, free, renamed) ↦ subst Indexed (sym renamed) (
        rename-IsIndexed uuid_new uuid_string to_lower id a (with_name input caller_id a) f h found
          refl free)
  ]

  update_balance-cases :
      (id : Uuid) (input : UpdateBalanceInput) (v : ℤ) (caller_id : Uuid)
      (f : FakeAccountRepository)
      → let f' = (update_balance id input v caller_id f).1 in
        (f' ≡ f)
        ⊎ ((a : Account) × (lookup id f.by_id ≡ some a)
            × (f' ≡ put id (with_balance input caller_id a) f))
  unfolding update_balance
  update_balance-cases id input v caller_id f = elim (Option-cases f.err) [
    | inr (e, failing) ↦ inl (rw failing)
    | inl working ↦ elim (Option-cases (lookup id f.by_id)) [
      | inl missing ↦ inl (rw (working, missing))
      | inr (a, found) ↦ elim (Bool-cases (eqb_ℤ a.version v)) [
        | inr conflict ↦ inl (rw (working, found, conflict))
        | inl current ↦ inr (a, found, rw (working, found, current))
      ]
    ]
  ]

  -- The index stays in step when a balance is set.
  pub update_balance-IsIndexed :
      (id : Uuid) (input : UpdateBalanceInput) (v : ℤ) (caller_id : Uuid)
      (f : FakeAccountRepository)
      → Indexed f
      → Indexed (update_balance id input v caller_id f).1
  unfolding with_balance
  update_balance-IsIndexed id input v caller_id f h =
      elim (update_balance-cases id input v caller_id f) [
        | inl same ↦ subst Indexed (sym same) h
        | inr (a, found, written) ↦ subst Indexed (sym written) (
            put-IsIndexed uuid_new uuid_string to_lower id a (with_balance input caller_id a) f h
              found refl refl)
      ]

  deactivate-cases :
      (id caller_id : Uuid) (f : FakeAccountRepository)
      → let f' = (deactivate uuid_new uuid_string to_lower id caller_id f).1 in
        (f' ≡ f)
        ⊎ ((a : Account) × (lookup id f.by_id ≡ some a)
            × (f' ≡ remove uuid_new uuid_string to_lower id a f))
  unfolding deactivate
  deactivate-cases id caller_id f = elim (Option-cases f.err) [
    | inr (e, failing) ↦ inl (rw failing)
    | inl working ↦ elim (Option-cases (lookup id f.by_id)) [
      | inl missing ↦ inl (ground arith)
      | inr (a, found) ↦ inr (a, found, ground arith)
    ]
  ]

  -- The index stays in step when an account is deactivated: its name is free again.
  pub deactivate-IsIndexed :
      (id caller_id : Uuid) (f : FakeAccountRepository)
      → Indexed f
      → Indexed (deactivate uuid_new uuid_string to_lower id caller_id f).1
  deactivate-IsIndexed id caller_id f h = elim (deactivate-cases id caller_id f) [
    | inl same ↦ subst Indexed (sym same) h
    | inr (a, found, removed) ↦
        subst Indexed (sym removed) (remove-IsIndexed uuid_new uuid_string to_lower id a f h found)
  ]

  -- In storage that is in step, two active accounts of one household whose names differ in case
  -- at most are the same account.
  pub names_are_unique :
      (i j : Uuid) (a b : Account) (f : FakeAccountRepository)
      → Indexed f
      → lookup i f.by_id ≡ some a
      → lookup j f.by_id ≡ some b
      → a.household_id ≡ b.household_id
      → to_lower a.name ≡ to_lower b.name
      → i ≡ j
  unfolding name_key
  names_are_unique i j a b f h found_a found_b household name =
      let same_key : key_of uuid_new uuid_string to_lower a
          ≡ key_of uuid_new uuid_string to_lower b =
        cc in
      ground (arith, h.named i a found_a, h.named j b found_b)
