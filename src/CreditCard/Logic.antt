-- ===== src/CreditCard/Logic.antt =====
-- internal/domain/creditcard/settings_logic.go: the operations of `SettingsLogic`.
pub mod Checks
use pfm_go.Common.{String, not, [], ◌∷◌, ◌==◌, string_eq, if◌then◌else◌}
use pfm_go.Common.Int.{ℤ, pos}
use pfm_go.Types.{Uuid, account_type_credit_card}
use pfm_go.Message.{sentinel, wrapped, Sentinel, is, named}
use pfm_go.Effect.{Action, fail, ◌>>=◌, ◌>>◌, on_error, annotate, fail_if}
use pfm_go.Validate.{int, int64, range, non_negative, field, new_result, Violations, check}
use pfm_go.CreditCard.{
  Settings, CreateInput, UpdateClosingDayInput, UpdateDueDayInput, UpdateLimitInput, Repository,
  AccountTypeFinder,
}

-- The result of `validateDayAndLimit`, whose error `check` returns.
abbrev pub day_and_limit_result : ℤ → ℤ → ℤ → Violations
day_and_limit_result closing_day due_day limit_amount =
    field (named "limit_amount") (int64 limit_amount) (non_negative ∷ []) (
      field (named "due_day") (int due_day) (range (pos 1) (pos 31) ∷ [])
        (field (named "closing_day") (int closing_day) (range (pos 1) (pos 31) ∷ []) new_result))

abbrev pub day_result : String → ℤ → Violations
day_result name day = field (named name) (int day) (range (pos 1) (pos 31) ∷ []) new_result

abbrev pub limit_result : ℤ → Violations
limit_result limit_amount =
    field (named "limit_amount") (int64 limit_amount) (non_negative ∷ []) new_result

module _ {S : Type 0} (repo : Repository S) where
  unfoldable pub find_by_account_id : Uuid → Action S Settings
  find_by_account_id account_id =
      annotate "credit card logic: find by account: %w" (repo.find_by_account_id account_id)

  unfoldable pub update_closing_day : Uuid → UpdateClosingDayInput → ℤ → Uuid → Action S Settings
  update_closing_day account_id input expected_version caller_id = do
    check (day_result "closing_day" input.closing_day)
    annotate "credit card logic: update closing day: %w"
        (repo.update_closing_day account_id input expected_version caller_id)

  unfoldable pub update_due_day : Uuid → UpdateDueDayInput → ℤ → Uuid → Action S Settings
  update_due_day account_id input expected_version caller_id = do
    check (day_result "due_day" input.due_day)
    annotate "credit card logic: update due day: %w"
        (repo.update_due_day account_id input expected_version caller_id)

  unfoldable pub update_limit : Uuid → UpdateLimitInput → ℤ → Uuid → Action S Settings
  update_limit account_id input expected_version caller_id = do
    check (limit_result input.limit_amount)
    annotate "credit card logic: update limit: %w"
        (repo.update_limit account_id input expected_version caller_id)

  unfoldable pub delete : Uuid → Uuid → Action S (Unit {0})
  delete account_id caller_id =
      annotate "credit card logic: delete: %w" (repo.delete account_id caller_id)

  unfoldable pub create : AccountTypeFinder S → Uuid → CreateInput → Uuid → Action S Settings
  create accounts account_id input caller_id = do
    account_type ← annotate "credit card logic: create: %w" (accounts.find_account_type account_id)
    fail_if (not (account_type == account_type_credit_card)) (
        wrapped "credit card logic: create: %w"
          (sentinel Sentinel.credit_card_settings_not_credit_card))
    check (day_and_limit_result input.closing_day input.due_day input.limit_amount)
    on_error (repo.create account_id input caller_id) λ e.
        if is e Sentinel.credit_card_settings_exists
        then fail (
            wrapped "credit card logic: create: %w" (sentinel Sentinel.credit_card_settings_exists))
        else fail (wrapped "credit card logic: create: %w" e)
