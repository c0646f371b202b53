-- ===== src/Http/Response/Statuses.antt =====
-- internal/adapter/http/response.go: what a client is told of an error.
use pfm_go.Common.{ℕ, String, Option, none, some, ◌≡◌, refl}
use pfm_go.Message.{
  Error, Sentinel, sentinel, wrapped, quoted, counted, validation, foreign, is, msg_not_found,
  msg_conflict, msg_internal_error, msg_unbalanced_ledger, msg_balance_not_zero,
  msg_not_credit_card, msg_last_admin, msg_login_invalid_credentials,
}
use pfm_go.Http.Response.{first_match, map_error}

-- The variable at the end of the wrapping, if there is one.
abbrev root : Error → Option Sentinel
root (sentinel s) = some s
root (wrapped _ e) = root e
root (quoted e _) = root e
root (counted e _) = root e
root (validation _) = none
root (foreign _) = none

-- What is told of each variable. The errors of parsing and of tokens have no entry, and neither
-- has the one of a caller who is no admin.
abbrev pub told : Sentinel → ℕ × String
told = elim [
  | Sentinel.login_invalid_credentials ↦ (401, msg_login_invalid_credentials)
  | Sentinel.user_not_found ↦ (404, msg_not_found)
  | Sentinel.household_not_found ↦ (404, msg_not_found)
  | Sentinel.household_member_not_found ↦ (404, msg_not_found)
  | Sentinel.account_not_found ↦ (404, msg_not_found)
  | Sentinel.credit_card_settings_not_found ↦ (404, msg_not_found)
  | Sentinel.user_version_conflict ↦ (409, msg_conflict)
  | Sentinel.household_version_conflict ↦ (409, msg_conflict)
  | Sentinel.account_version_conflict ↦ (409, msg_conflict)
  | Sentinel.credit_card_settings_version_conflict ↦ (409, msg_conflict)
  | Sentinel.user_email_taken ↦ (409, msg_conflict)
  | Sentinel.household_member_exists ↦ (409, msg_conflict)
  | Sentinel.account_name_taken ↦ (409, msg_conflict)
  | Sentinel.credit_card_settings_exists ↦ (409, msg_conflict)
  | Sentinel.ledger_unbalanced ↦ (422, msg_unbalanced_ledger)
  | Sentinel.account_balance_not_zero ↦ (409, msg_balance_not_zero)
  | Sentinel.credit_card_settings_not_credit_card ↦ (409, msg_not_credit_card)
  | Sentinel.household_last_admin ↦ (409, msg_last_admin)
  | Sentinel.household_not_admin ↦ (500, msg_internal_error)
  | Sentinel.token_expired ↦ (500, msg_internal_error)
  | Sentinel.token_invalid ↦ (500, msg_internal_error)
  | Sentinel.money_empty ↦ (500, msg_internal_error)
  | Sentinel.money_invalid_format ↦ (500, msg_internal_error)
  | Sentinel.money_invalid_number ↦ (500, msg_internal_error)
  | Sentinel.money_invalid_decimal ↦ (500, msg_internal_error)
  | Sentinel.money_overflow ↦ (500, msg_internal_error)
  | Sentinel.money_invalid_currency ↦ (500, msg_internal_error)
]

abbrev told_root : Option Sentinel → ℕ × String
told_root none = (500, msg_internal_error)
told_root (some s) = told s

map_error-sentinel : (s : Sentinel) → map_error (sentinel s) ≡ told s
unfolding map_error first_match is
map_error-sentinel = elim [
  | Sentinel.login_invalid_credentials ↦ refl
  | Sentinel.user_not_found ↦ refl
  | Sentinel.household_not_found ↦ refl
  | Sentinel.household_member_not_found ↦ refl
  | Sentinel.account_not_found ↦ refl
  | Sentinel.credit_card_settings_not_found ↦ refl
  | Sentinel.user_version_conflict ↦ refl
  | Sentinel.household_version_conflict ↦ refl
  | Sentinel.account_version_conflict ↦ refl
  | Sentinel.credit_card_settings_version_conflict ↦ refl
  | Sentinel.user_email_taken ↦ refl
  | Sentinel.household_member_exists ↦ refl
  | Sentinel.account_name_taken ↦ refl
  | Sentinel.credit_card_settings_exists ↦ refl
  | Sentinel.ledger_unbalanced ↦ refl
  | Sentinel.account_balance_not_zero ↦ refl
  | Sentinel.credit_card_settings_not_credit_card ↦ refl
  | Sentinel.household_last_admin ↦ refl
  | Sentinel.household_not_admin ↦ refl
  | Sentinel.token_expired ↦ refl
  | Sentinel.token_invalid ↦ refl
  | Sentinel.money_empty ↦ refl
  | Sentinel.money_invalid_format ↦ refl
  | Sentinel.money_invalid_number ↦ refl
  | Sentinel.money_invalid_decimal ↦ refl
  | Sentinel.money_overflow ↦ refl
  | Sentinel.money_invalid_currency ↦ refl
]

-- `MapError` looks only at the variable at the end of the wrapping, whatever formats and details
-- stand around it: each variable has one status and one text, and an error of any other kind, and
-- a variable without an entry, is told as an internal error. Of the refusals of the domain only
-- the one of a caller who is no admin has no entry.
pub map_error-root : (e : Error) → map_error e ≡ told_root (root e)
unfolding map_error first_match is
map_error-root (sentinel s) = map_error-sentinel s
map_error-root (wrapped _ e) = map_error-root e
map_error-root (quoted e _) = map_error-root e
map_error-root (counted e _) = map_error-root e
map_error-root (validation _) = refl
map_error-root (foreign _) = refl
