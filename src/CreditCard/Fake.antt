-- ===== src/CreditCard/Fake.antt =====
-- internal/adapter/postgres/fake_creditcard_settings_repo.go: the storage of settings in memory.
pub mod Ranges
pub mod Reach
use pfm_go.Common.{ℕ, ◌+◌, String, not, Option, none, some, [], ◌==◌, nat_eq, if◌then◌else◌}
use pfm_go.Common.Int.{ℤ, pos, eqb_ℤ}
use pfm_go.Common.Int64.{add64}
use pfm_go.Types.{Uuid, zero_time}
use pfm_go.Message.{Error, sentinel, wrapped, Sentinel}
use pfm_go.Effect.{Result, ok, err, Action, pure, gets, modify, or_fail, ◌>>=◌, ◌>>◌, fail_if}
use pfm_go.GoMap
use pfm_go.GoMap.{Map, lookup, contains, insert}
use pfm_go.CreditCard.{
  Settings, CreateInput, UpdateClosingDayInput, UpdateDueDayInput, UpdateLimitInput, Repository,
}

-- `drawn` counts the calls of `uuid.New`; the other fields are the source's.
pub record FakeCreditCardSettingsRepository : Type 0 where
  pub by_account : Map Uuid Settings
  pub err : Option Error
  pub drawn : ℕ

abbrev pub new_fake_credit_card_settings_repository : FakeCreditCardSettingsRepository
new_fake_credit_card_settings_repository = record { by_account = []; err = none; drawn = 0 }

unfoldable pub set_error :
    Option Error → FakeCreditCardSettingsRepository → FakeCreditCardSettingsRepository
set_error e f = record f { err = e }

abbrev pub Fake : Type 0 → Type 0
Fake A = Action FakeCreditCardSettingsRepository A

-- `if f.err != nil { return …, f.err }`
unfoldable pub injected : Fake (Unit {0})
injected f = elim f.err [ none ↦ (ok tt, f) | some e ↦ (Result.err e, f) ]

unfoldable pub find_by_account_id : Uuid → Fake Settings
unfolding injected
find_by_account_id account_id = do
  injected
  or_fail (← gets (λ f. lookup account_id f.by_account)) (
      wrapped "credit card settings: find by account: %w"
        (sentinel Sentinel.credit_card_settings_not_found))

-- `s.Version++` and `s.UpdatedBy = callerID`
unfoldable pub touched : Uuid → Settings → Settings
touched caller_id s = record s { version = add64 s.version (pos 1); updated_by = caller_id }

-- `f.byAccount[accountID] = s`
unfoldable pub put :
    Uuid → Settings → FakeCreditCardSettingsRepository → FakeCreditCardSettingsRepository
put account_id s f = record f { by_account = insert account_id s f.by_account }

-- What the three updates share: they differ in the field that they change.
unfoldable pub update : String → (Settings → Settings) → Uuid → ℤ → Uuid → Fake Settings
unfolding injected touched put
update format change account_id expected_version caller_id = do
  injected
  s ←
      or_fail (← gets (λ f. lookup account_id f.by_account))
        (wrapped format (sentinel Sentinel.credit_card_settings_not_found))
  fail_if (not (eqb_ℤ s.version expected_version))
      (wrapped format (sentinel Sentinel.credit_card_settings_version_conflict))
  modify (put account_id (touched caller_id (change s)))
  pure (touched caller_id (change s))

unfoldable pub with_closing_day : UpdateClosingDayInput → Settings → Settings
with_closing_day input s = record s { closing_day = input.closing_day }

unfoldable pub with_due_day : UpdateDueDayInput → Settings → Settings
with_due_day input s = record s { due_day = input.due_day }

unfoldable pub with_limit : UpdateLimitInput → Settings → Settings
with_limit input s = record s { limit_amount = input.limit_amount }

unfoldable pub update_closing_day : Uuid → UpdateClosingDayInput → ℤ → Uuid → Fake Settings
unfolding with_closing_day update
update_closing_day account_id input =
    update "credit card settings: update closing day: %w" (with_closing_day input) account_id

unfoldable pub update_due_day : Uuid → UpdateDueDayInput → ℤ → Uuid → Fake Settings
unfolding with_due_day update
update_due_day account_id input =
    update "credit card settings: update due day: %w" (with_due_day input) account_id

unfoldable pub update_limit : Uuid → UpdateLimitInput → ℤ → Uuid → Fake Settings
unfolding with_limit update
update_limit account_id input =
    update "credit card settings: update limit: %w" (with_limit input) account_id

unfoldable pub delete : Uuid → Uuid → Fake (Unit {0})
unfolding injected
delete account_id _ = do
  injected
  modify (λ f. record f { by_account = GoMap.delete account_id f.by_account })

-- `uuid.New` is not part of the program.
module _ (uuid_new : ℕ → Uuid) where
  unfoldable pub new_settings : Uuid → CreateInput → Uuid → ℕ → Settings
  new_settings account_id input caller_id drawn = record {
    id = uuid_new drawn;
    account_id = account_id;
    closing_day = input.closing_day;
    due_day = input.due_day;
    limit_amount = input.limit_amount;
    version = pos 1;
    created_at = zero_time;
    updated_at = zero_time;
    created_by = caller_id;
    updated_by = caller_id;
  }

  unfoldable pub store :
      Settings → FakeCreditCardSettingsRepository → FakeCreditCardSettingsRepository
  store s f = record f { by_account = insert s.account_id s f.by_account; drawn = f.drawn + 1 }

  unfoldable pub create : Uuid → CreateInput → Uuid → Fake Settings
  unfolding injected new_settings store
  create account_id input caller_id = do
    injected
    fail_if (← gets (λ f. contains account_id f.by_account))
        (wrapped "credit card settings: create: %w" (sentinel Sentinel.credit_card_settings_exists))
    s ← gets (λ f. new_settings account_id input caller_id f.drawn)
    modify (store s)
    pure s

  abbrev pub fake_credit_card_settings_repository : Repository FakeCreditCardSettingsRepository
  fake_credit_card_settings_repository = record {
    find_by_account_id = find_by_account_id;
    create = create;
    update_closing_day = update_closing_day;
    update_due_day = update_due_day;
    update_limit = update_limit;
    delete = delete;
  }
