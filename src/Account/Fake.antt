-- ===== src/Account/Fake.antt =====
-- internal/adapter/postgres/fake_account_repo.go: the accounts' storage in memory, with an index
-- of the names in use.
pub mod Index
pub mod Names
pub mod Versions
pub mod Reach
pub mod Closing
use Prim.Native.String
use pfm_go.Common.{
  ℕ, ◌+◌, String, Bool, not, false, Option, none, some, List, [], ◌∷◌, ◌==◌, nat_eq, string_eq,
  if◌then◌else◌,
}
use pfm_go.Common.Int.{ℤ, pos, eqb_ℤ}
use pfm_go.Common.Int64.{add64}
use pfm_go.Types.{Uuid, zero_time, status_active}
use pfm_go.Message.{Error, sentinel, wrapped, Sentinel}
use pfm_go.Effect.{Result, ok, err, Action, pure, fail, gets, modify, or_fail, ◌>>=◌, ◌>>◌, fail_if}
use pfm_go.GoMap.{Map, lookup, contains, insert, delete}
use pfm_go.Account.{Account, CreateInput, UpdateNameInput, UpdateBalanceInput, Repository}

-- `drawn` counts the calls of `uuid.New`; the other fields are the source's.
pub record FakeAccountRepository : Type 0 where
  pub by_id : Map Uuid Account
  pub names : Map String Uuid
  pub err : Option Error
  pub drawn : ℕ

abbrev pub new_fake_account_repository : FakeAccountRepository
new_fake_account_repository = record { by_id = []; names = []; err = none; drawn = 0 }

unfoldable pub set_error : Option Error → FakeAccountRepository → FakeAccountRepository
set_error e f = record f { err = e }

abbrev pub Fake : Type 0 → Type 0
Fake A = Action FakeAccountRepository A

-- `if f.err != nil { return …, f.err }`
unfoldable pub injected : Fake (Unit {0})
injected f = elim f.err [ none ↦ (ok tt, f) | some e ↦ (Result.err e, f) ]

unfoldable pub find : Uuid → FakeAccountRepository → Option Account
find id f = lookup id f.by_id

unfoldable pub find_by_id : Uuid → Fake Account
unfolding injected find
find_by_id id = do
  injected
  or_fail (← gets (find id))
      (wrapped "account: find by id: %w" (sentinel Sentinel.account_not_found))

-- The loop of `ListForHousehold`.
unfoldable pub in_household : Uuid → Map Uuid Account → List Account
in_household household_id [] = []
in_household household_id ((_, a) ∷ m) =
    let rest = in_household household_id m in
    if a.household_id == household_id then a ∷ rest else rest

unfoldable pub list_for_household : Uuid → Fake (List Account)
unfolding injected in_household
list_for_household household_id = do injected; gets (λ f. in_household household_id f.by_id)

unfoldable pub with_balance : UpdateBalanceInput → Uuid → Account → Account
with_balance input caller_id a = record a {
  balance = input.balance;
  version = add64 a.version (pos 1);
  updated_by = caller_id;
}

unfoldable pub with_name : UpdateNameInput → Uuid → Account → Account
with_name input caller_id a = record a {
  name = input.name;
  version = add64 a.version (pos 1);
  updated_by = caller_id;
}

-- `f.byID[id] = a`
unfoldable pub put : Uuid → Account → FakeAccountRepository → FakeAccountRepository
put id a f = record f { by_id = insert id a f.by_id }

unfoldable pub update_balance : Uuid → UpdateBalanceInput → ℤ → Uuid → Fake Account
unfolding injected find with_balance put
update_balance id input expected_version caller_id = do
  injected
  a ←
      or_fail (← gets (find id))
        (wrapped "account: update balance: %w" (sentinel Sentinel.account_not_found))
  fail_if (not (eqb_ℤ a.version expected_version))
      (wrapped "account: update balance: %w" (sentinel Sentinel.account_version_conflict))
  modify (put id (with_balance input caller_id a))
  pure (with_balance input caller_id a)

-- `uuid.New`, `uuid.UUID.String` and `strings.ToLower` are not part of the program.
module _ (uuid_new : ℕ → Uuid) (uuid_string : Uuid → String) (to_lower : String → String) where
  unfoldable pub name_key : Uuid → String → String
  name_key household_id name =
      String.◌++◌ (uuid_string household_id) (String.◌++◌ ":" (to_lower name))

  abbrev pub key_of : Account → String
  key_of a = name_key a.household_id a.name

  unfoldable pub new_account : Uuid → CreateInput → Uuid → ℕ → Account
  new_account household_id input caller_id drawn = record {
    id = uuid_new drawn;
    household_id = household_id;
    name = input.name;
    account_type = input.account_type;
    currency_code = input.currency_code;
    balance = pos 0;
    status = status_active;
    version = pos 1;
    created_at = zero_time;
    updated_at = zero_time;
    created_by = caller_id;
    updated_by = caller_id;
  }

  -- The two writes of `Create`.
  unfoldable pub store : Account → FakeAccountRepository → FakeAccountRepository
  store a f = record f {
    by_id = insert a.id a f.by_id;
    names = insert (key_of a) a.id f.names;
    drawn = f.drawn + 1;
  }

  unfoldable pub create : Uuid → CreateInput → Uuid → Fake Account
  unfolding injected new_account store
  create household_id input caller_id = do
    injected
    fail_if (← gets (λ f. contains (name_key household_id input.name) f.names))
        (wrapped "account: create: %w" (sentinel Sentinel.account_name_taken))
    a ← gets (λ f. new_account household_id input caller_id f.drawn)
    modify (store a)
    pure a

  -- Another account has the name: `existingID, exists := f.names[newKey]; exists && existingID != id`.
  unfoldable pub is_taken : String → Uuid → FakeAccountRepository → Bool
  is_taken key id f = elim (lookup key f.names) [ none ↦ false | some j ↦ not (j == id) ]

  -- The writes of `UpdateName`: the old name leaves the index before the new one enters it.
  unfoldable pub rename : Uuid → Account → Account → FakeAccountRepository → FakeAccountRepository
  rename id old new f = record f {
    by_id = insert id new f.by_id;
    names = insert (key_of new) id (delete (key_of old) f.names);
  }

  unfoldable pub update_name : Uuid → UpdateNameInput → ℤ → Uuid → Fake Account
  unfolding injected find with_name rename
  update_name id input expected_version caller_id = do
    injected
    a ←
        or_fail (← gets (find id))
          (wrapped "account: update name: %w" (sentinel Sentinel.account_not_found))
    fail_if (not (eqb_ℤ a.version expected_version))
        (wrapped "account: update name: %w" (sentinel Sentinel.account_version_conflict))
    fail_if (← gets (is_taken (name_key a.household_id input.name) id))
        (wrapped "account: update name: %w" (sentinel Sentinel.account_name_taken))
    modify (rename id a (with_name input caller_id a))
    pure (with_name input caller_id a)

  -- The deletes of `Deactivate`.
  unfoldable pub remove : Uuid → Account → FakeAccountRepository → FakeAccountRepository
  remove id a f = record f { by_id = delete id f.by_id; names = delete (key_of a) f.names }

  unfoldable pub deactivate : Uuid → Uuid → Fake (Unit {0})
  unfolding injected find remove
  deactivate id _ = do
    injected
    found ← gets (find id)
    elim found [ none ↦ pure tt | some a ↦ modify (remove id a) ]

  abbrev pub fake_account_repository : Repository FakeAccountRepository
  fake_account_repository = record {
    find_by_id = find_by_id;
    list_for_household = list_for_household;
    create = create;
    update_name = update_name;
    update_balance = update_balance;
    deactivate = deactivate;
  }
