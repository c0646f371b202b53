-- ===== src/Account/Fake/Reach.antt =====
-- The states of the accounts' storage that calls reach.
use pfm_go.Common.{ℕ, String, ◌≡◌, none, some, nat_eq, string_eq}
use pfm_go.Common.Int.{ℤ}
use pfm_go.Types.{Uuid}
use pfm_go.GoMap.{lookup}
use pfm_go.Account.{Account, CreateInput, UpdateNameInput, UpdateBalanceInput}
use pfm_go.Account.Fake.{
  FakeAccountRepository, new_fake_account_repository, create, update_name, update_balance,
  deactivate,
}
use pfm_go.Account.Fake.Index.{IsIndexed}
use pfm_go.Account.Fake.Names.{
  create-IsIndexed, update_name-IsIndexed, update_balance-IsIndexed, deactivate-IsIndexed,
  names_are_unique,
}

module _ (uuid_new : ℕ → Uuid) (uuid_string : Uuid → String) (to_lower : String → String) where
  -- One call. `Create` needs an id that no account has.
  pub data Step : FakeAccountRepository → FakeAccountRepository → Type 0 where
    creates :
        (household_id : Uuid) (input : CreateInput) (caller_id : Uuid) (f : FakeAccountRepository)
        → lookup (uuid_new f.drawn) f.by_id ≡ none
        → Step f (create uuid_new uuid_string to_lower household_id input caller_id f).1
    renames :
        (id : Uuid) (input : UpdateNameInput) (v : ℤ) (caller_id : Uuid) (f : FakeAccountRepository)
        → Step f (update_name uuid_new uuid_string to_lower id input v caller_id f).1
    sets_balance :
        (id : Uuid) (input : UpdateBalanceInput) (v : ℤ) (caller_id : Uuid)
        (f : FakeAccountRepository)
        → Step f (update_balance id input v caller_id f).1
    deactivates :
        (id caller_id : Uuid) (f : FakeAccountRepository)
        → Step f (deactivate uuid_new uuid_string to_lower id caller_id f).1

  pub data Reachable : FakeAccountRepository → Type 0 where
    initial : Reachable new_fake_account_repository
    continues : {f f' : FakeAccountRepository} → Reachable f → Step f f' → Reachable f'

  abbrev Indexed : FakeAccountRepository → Type 0
  Indexed = IsIndexed uuid_new uuid_string to_lower

  Step-IsIndexed : (f f' : FakeAccountRepository) → Step f f' → Indexed f → Indexed f'
  Step-IsIndexed _ _ (creates household_id input caller_id f unused) h =
      create-IsIndexed uuid_new uuid_string to_lower household_id input caller_id f h unused
  Step-IsIndexed _ _ (renames id input v caller_id f) h =
      update_name-IsIndexed uuid_new uuid_string to_lower id input v caller_id f h
  Step-IsIndexed _ _ (sets_balance id input v caller_id f) h =
      update_balance-IsIndexed uuid_new uuid_string to_lower id input v caller_id f h
  Step-IsIndexed _ _ (deactivates id caller_id f) h =
      deactivate-IsIndexed uuid_new uuid_string to_lower id caller_id f h

  pub Reachable-IsIndexed : (f : FakeAccountRepository) → Reachable f → Indexed f
  unfolding lookup
  Reachable-IsIndexed _ initial = record {
    keyed = λ i a e. cc;
    named = λ i a e. cc;
    active = λ k i e. cc;
  }
  Reachable-IsIndexed f (continues before step) =
      Step-IsIndexed _ f step (Reachable-IsIndexed _ before)

  -- In every state that calls of the storage reach from the empty one, where `Create` draws an id
  -- that no active account has, two active accounts of one household whose names are equal in
  -- lower case are the same account.
  pub Reachable-names_are_unique :
      (f : FakeAccountRepository)
      → Reachable f
      → (i j : Uuid) (a b : Account) → lookup i f.by_id ≡ some a
      → lookup j f.by_id ≡ some b
      → a.household_id ≡ b.household_id
      → to_lower a.name ≡ to_lower b.name
      → i ≡ j
  Reachable-names_are_unique f reached i j a b =
      names_are_unique uuid_new uuid_string to_lower i j a b f (Reachable-IsIndexed f reached)
