-- ===== src/Message.antt =====
-- The error values of internal/message/errors.go, and the errors that are made of them:
-- `fmt.Errorf` with a `%w` verb wraps an error, and `errors.Is` looks through the wrapping.
use pfm_go.Common.{ℕ, String, List, Bool, false, nat_eqb, Option, none, some}
use pfm_go.Common.Int.{ℤ}

-- The variables that hold `errors.New` values, without the prefix `Err`.
pub data Sentinel : Type 0 where
  money_empty money_invalid_format money_invalid_number : Sentinel
  money_invalid_decimal money_overflow money_invalid_currency : Sentinel
  token_expired token_invalid : Sentinel
  login_invalid_credentials : Sentinel
  user_not_found user_version_conflict user_email_taken : Sentinel
  household_not_found household_version_conflict household_member_exists : Sentinel
  household_member_not_found household_not_admin household_last_admin : Sentinel
  account_not_found account_version_conflict account_name_taken : Sentinel
  account_balance_not_zero : Sentinel
  credit_card_settings_not_found credit_card_settings_exists : Sentinel
  credit_card_settings_version_conflict credit_card_settings_not_credit_card : Sentinel
  ledger_unbalanced : Sentinel

-- The identity of the variable, by which `errors.Is` compares.
pub index : Sentinel → ℕ
index = elim [
  | Sentinel.money_empty ↦ 0
  | Sentinel.money_invalid_format ↦ 1
  | Sentinel.money_invalid_number ↦ 2
  | Sentinel.money_invalid_decimal ↦ 3
  | Sentinel.money_overflow ↦ 4
  | Sentinel.money_invalid_currency ↦ 5
  | Sentinel.token_expired ↦ 6
  | Sentinel.token_invalid ↦ 7
  | Sentinel.login_invalid_credentials ↦ 8
  | Sentinel.user_not_found ↦ 9
  | Sentinel.user_version_conflict ↦ 10
  | Sentinel.user_email_taken ↦ 11
  | Sentinel.household_not_found ↦ 12
  | Sentinel.household_version_conflict ↦ 13
  | Sentinel.household_member_exists ↦ 14
  | Sentinel.household_member_not_found ↦ 15
  | Sentinel.household_not_admin ↦ 16
  | Sentinel.household_last_admin ↦ 17
  | Sentinel.account_not_found ↦ 18
  | Sentinel.account_version_conflict ↦ 19
  | Sentinel.account_name_taken ↦ 20
  | Sentinel.account_balance_not_zero ↦ 21
  | Sentinel.credit_card_settings_not_found ↦ 22
  | Sentinel.credit_card_settings_exists ↦ 23
  | Sentinel.credit_card_settings_version_conflict ↦ 24
  | Sentinel.credit_card_settings_not_credit_card ↦ 25
  | Sentinel.ledger_unbalanced ↦ 26
]

unfoldable pub same : Sentinel → Sentinel → Bool
unfolding index
same s t = nat_eqb (index s) (index t)

-- A failed rule of validate/rules.go: the format of the message with its arguments.
pub data Reason : Type 0 where
  required positive non_negative email : Reason
  min_len max_len : ℕ → Reason
  range : ℤ → ℤ → Reason
  one_of : List String → Reason

-- The name of a field: a text, or a format with the index that it shows.
pub data FieldName : Type 0 where
  named : String → FieldName
  indexed : String → ℕ → FieldName

-- validate.Violation
pub record Violation : Type 0 where
  pub field : FieldName
  pub message : Reason

pub data Error : Type 0 where
  -- One of the variables above.
  sentinel : Sentinel → Error
  -- `fmt.Errorf(format, err)`, where the format ends in `%w`.
  wrapped : String → Error → Error
  -- `fmt.Errorf("%w: %q", err, detail)` and `fmt.Errorf("%w:, got %d", err, n)`.
  quoted : Error → List ℕ → Error
  counted : Error → ℕ → Error
  -- A `*validate.ValidationError`.
  validation : List Violation → Error
  -- An error of a package that is not part of the program.
  foreign : ℕ → Error

-- `errors.Is(err, s)`
unfoldable pub is : Error → Sentinel → Bool
unfolding same
is (sentinel t) s = same t s
is (wrapped _ e) s = is e s
is (quoted e _) s = is e s
is (counted e _) s = is e s
is (validation _) s = false
is (foreign _) s = false

-- `errors.As(err, &ve)` for a `*validate.ValidationError`
unfoldable pub as_validation : Error → Option (List Violation)
as_validation (sentinel _) = none
as_validation (wrapped _ e) = as_validation e
as_validation (quoted e _) = as_validation e
as_validation (counted e _) = as_validation e
as_validation (validation vs) = some vs
as_validation (foreign _) = none

-- What a client is told; the variables of these names in the source begin with `Msg`.
abbrev pub msg_health_not_ready : String
msg_health_not_ready = "service not ready"

abbrev pub msg_authn_missing_token : String
msg_authn_missing_token = "missing or malformed authorization header"

abbrev pub msg_authn_expired_token : String
msg_authn_expired_token = "token expired"

abbrev pub msg_authn_invalid_token : String
msg_authn_invalid_token = "invalid token"

abbrev pub msg_authz_unauthenticated : String
msg_authz_unauthenticated = "authentication required"

abbrev pub msg_authz_forbidden : String
msg_authz_forbidden = "you are not a member of this household"

abbrev pub msg_authz_not_found : String
msg_authz_not_found = "household not found"

abbrev pub msg_authz_bad_request : String
msg_authz_bad_request = "invalid household ID in URL"

abbrev pub msg_authz_admin_required : String
msg_authz_admin_required = "admin role required"

abbrev pub msg_login_invalid_credentials : String
msg_login_invalid_credentials = "invalid credentials"

abbrev pub msg_login_bad_request : String
msg_login_bad_request = "invalid request body"

abbrev pub msg_validation_failed : String
msg_validation_failed = "validation failed"

abbrev pub msg_bad_request_body : String
msg_bad_request_body = "invalid request body"

abbrev pub msg_not_found : String
msg_not_found = "resource not found"

abbrev pub msg_conflict : String
msg_conflict = "resource conflict"

abbrev pub msg_internal_error : String
msg_internal_error = "internal server error"

abbrev pub msg_unbalanced_ledger : String
msg_unbalanced_ledger = "transaction entries do not balance"

abbrev pub msg_balance_not_zero : String
msg_balance_not_zero = "account balance must be zero to deactivate"

abbrev pub msg_not_credit_card : String
msg_not_credit_card = "account is not a credit card"

abbrev pub msg_last_admin : String
msg_last_admin = "cannot remove last admin"
