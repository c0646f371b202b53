-- ===== src/Account/Logic.antt =====
-- internal/domain/account/account_logic.go: the operations of `AccountLogic`.
use pfm_go.Common.{String, not, List, [], ◌∷◌, if◌then◌else◌}
use pfm_go.Common.Int.{ℤ, pos, eqb_ℤ}
use pfm_go.Types.{
  Uuid, account_type_checking, account_type_savings, account_type_credit_card,
  account_type_investment, currency_usd, currency_brl, currency_eur,
}
use pfm_go.Message.{sentinel, wrapped, Sentinel, is, named}
use pfm_go.Effect.{Action, pure, fail, ◌>>◌, on_error, attempt, annotate, fail_if}
use pfm_go.Validate.{text, required, min_len, max_len, one_of, field, new_result, Violations, check}
use pfm_go.Account.{Account, CreateInput, UpdateNameInput, UpdateBalanceInput, Repository}

abbrev pub valid_account_types : List String
valid_account_types =
    account_type_checking ∷ account_type_savings ∷ account_type_credit_card
    ∷ account_type_investment ∷ []

abbrev pub valid_currencies : List String
valid_currencies = currency_usd ∷ currency_brl ∷ currency_eur ∷ []

-- The result of the checks of `Create`.
abbrev pub create_result : CreateInput → Violations
create_result input =
    field (named "currency_code") (text input.currency_code)
      (required ∷ one_of valid_currencies ∷ [])
      (field (named "account_type") (text input.account_type)
        (required ∷ one_of valid_account_types ∷ [])
        (field (named "name") (text input.name) (required ∷ min_len 2 ∷ max_len 100 ∷ [])
          new_result))

abbrev pub name_result : String → Violations
name_result name =
    field (named "name") (text name) (required ∷ min_len 2 ∷ max_len 100 ∷ []) new_result

module _ {S : Type 0} (repo : Repository S) where
  unfoldable pub create : Uuid → CreateInput → Uuid → Action S Account
  create household_id input caller_id = do
    check (create_result input)
    on_error (repo.create household_id input caller_id) λ e.
        if is e Sentinel.account_name_taken
        then fail (wrapped "account logic: create: %w" (sentinel Sentinel.account_name_taken))
        else fail (wrapped "account logic: create: %w" e)

  unfoldable pub find_by_id : Uuid → Action S Account
  find_by_id id = annotate "account logic: find by id: %w" (repo.find_by_id id)

  unfoldable pub list_for_household : Uuid → Action S (List Account)
  list_for_household household_id =
      annotate "account logic: list for household: %w" (repo.list_for_household household_id)

  unfoldable pub update_name : Uuid → UpdateNameInput → ℤ → Uuid → Action S Account
  update_name id input expected_version caller_id = do
    check (name_result input.name)
    annotate "account logic: update name: %w" (repo.update_name id input expected_version caller_id)

  unfoldable pub update_balance : Uuid → UpdateBalanceInput → ℤ → Uuid → Action S Account
  update_balance id input expected_version caller_id =
      annotate "account logic: update balance: %w"
        (repo.update_balance id input expected_version caller_id)

  -- The part of `Deactivate` behind the lookup.
  unfoldable pub deactivate_found : Uuid → Uuid → Account → Action S (Unit {0})
  deactivate_found id caller_id a = do
    fail_if (not (eqb_ℤ a.balance (pos 0)))
        (wrapped "account logic: deactivate: %w" (sentinel Sentinel.account_balance_not_zero))
    annotate "account logic: deactivate: %w" (repo.deactivate id caller_id)

  -- A missing account is no error.
  unfoldable pub deactivate : Uuid → Uuid → Action S (Unit {0})
  unfolding deactivate_found
  deactivate id caller_id =
      attempt (repo.find_by_id id)
        (λ e.
          if is e Sentinel.account_not_found
          then pure tt
          else fail (wrapped "account logic: deactivate: %w" e))
        (deactivate_found id caller_id)
