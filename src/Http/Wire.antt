-- ===== src/Http/Wire.antt =====
-- internal/adapter/http: the bodies of requests and responses, and what the handlers use of the
-- packages that parse and print them.
use pfm_go.Common.{ℕ, String, Option, List}
use pfm_go.Common.Int.{ℤ}
use pfm_go.Types.{Uuid, Time}
use pfm_go.Message.{Reason, FieldName}
use pfm_go.GoMap.{Map}

pub record LoginRequest : Type 0 where
  pub email : String
  pub password : String

pub record ChangePasswordRequest : Type 0 where
  pub old_password : String
  pub new_password : String
  pub version : ℤ

pub record UpdateProfileRequest : Type 0 where
  pub display_name : String
  pub version : ℤ

pub record CreateHouseholdRequest : Type 0 where
  pub name : String

pub record AddMemberRequest : Type 0 where
  pub user_id : String
  pub role : String

-- `updateHouseholdNameRequest` and `updateAccountNameRequest`
pub record UpdateNameRequest : Type 0 where
  pub name : String
  pub version : ℤ

pub record CreateHouseholdUserRequest : Type 0 where
  pub email : String
  pub display_name : String
  pub password : String

pub record CreateAccountRequest : Type 0 where
  pub name : String
  pub account_type : String
  pub currency_code : String

pub record UpdateAccountBalanceRequest : Type 0 where
  pub balance : ℤ
  pub version : ℤ

pub record CreateSettingsRequest : Type 0 where
  pub closing_day : ℤ
  pub due_day : ℤ
  pub limit_amount : ℤ

pub record UpdateClosingDayRequest : Type 0 where
  pub closing_day : ℤ
  pub version : ℤ

pub record UpdateDueDayRequest : Type 0 where
  pub due_day : ℤ
  pub version : ℤ

pub record UpdateCreditLimitRequest : Type 0 where
  pub limit_amount : ℤ
  pub version : ℤ

pub record EntryInputRequest : Type 0 where
  pub account_id : String
  pub entry_type : String
  pub amount : ℤ

pub record PostTransactionRequest : Type 0 where
  pub description : String
  pub transaction_date : String
  pub entries : List EntryInputRequest

-- The types of the values that `DecodeBody` fills.
pub data Body : Type 0 where
  login change_password update_profile create_household add_member update_name : Body
  create_household_user create_account update_account_balance create_settings : Body
  update_closing_day update_due_day update_credit_limit post_transaction : Body

abbrev pub Decoded : Body → Type 0
Decoded Body.login = LoginRequest
Decoded Body.change_password = ChangePasswordRequest
Decoded Body.update_profile = UpdateProfileRequest
Decoded Body.create_household = CreateHouseholdRequest
Decoded Body.add_member = AddMemberRequest
Decoded Body.update_name = UpdateNameRequest
Decoded Body.create_household_user = CreateHouseholdUserRequest
Decoded Body.create_account = CreateAccountRequest
Decoded Body.update_account_balance = UpdateAccountBalanceRequest
Decoded Body.create_settings = CreateSettingsRequest
Decoded Body.update_closing_day = UpdateClosingDayRequest
Decoded Body.update_due_day = UpdateDueDayRequest
Decoded Body.update_credit_limit = UpdateCreditLimitRequest
Decoded Body.post_transaction = PostTransactionRequest

-- Packages that the program imports: `uuid.Parse` and `UUID.String`, `Format` and `Parse` of
-- times, `strconv.Atoi`, the text of a field's name, and the decoder of JSON, which reads at most
-- the given number of bytes.
pub record Codec : Type 0 where
  pub parse_uuid : String → Option Uuid
  pub uuid_string : Uuid → String
  pub rfc3339 : Time → String
  pub date_string : Time → String
  pub parse_date : String → Option Time
  pub atoi : String → Option ℤ
  pub field_text : FieldName → String
  pub decode : ℕ → (b : Body) → String → Option (Decoded b)

pub record LoginResponse : Type 0 where
  pub token : String
  pub expires_at : String

pub record UserResponse : Type 0 where
  pub id : String
  pub email : String
  pub display_name : String
  pub version : ℤ
  pub created_at : String
  pub updated_at : String

pub record HouseholdResponse : Type 0 where
  pub id : String
  pub name : String
  pub status : String
  pub version : ℤ
  pub created_at : String
  pub updated_at : String

pub record MembershipResponse : Type 0 where
  pub household_id : String
  pub user_id : String
  pub role : String
  pub invited_by : String
  pub joined_at : String

pub record CreatedHouseholdUserResponse : Type 0 where
  pub id : String
  pub email : String
  pub display_name : String

pub record AccountResponse : Type 0 where
  pub id : String
  pub household_id : String
  pub name : String
  pub account_type : String
  pub currency_code : String
  pub balance : ℤ
  pub status : String
  pub version : ℤ
  pub created_at : String
  pub updated_at : String

pub record SettingsResponse : Type 0 where
  pub id : String
  pub account_id : String
  pub closing_day : ℤ
  pub due_day : ℤ
  pub limit_amount : ℤ
  pub version : ℤ
  pub created_at : String
  pub updated_at : String

pub record EntryResponse : Type 0 where
  pub id : String
  pub transaction_id : String
  pub account_id : String
  pub entry_type : String
  pub amount : ℤ
  pub created_at : String

pub record TransactionResponse : Type 0 where
  pub id : String
  pub household_id : String
  pub description : String
  pub transaction_date : String
  pub created_at : String
  pub entries : List EntryResponse

pub record BalanceResponse : Type 0 where
  pub account_id : String
  pub balance : ℤ

-- What a response's body is the JSON of.
pub data Payload : Type 0 where
  nothing : Payload
  -- A text that is no JSON.
  document : String → Payload
  -- `map[string]string{"error": msg}`, and with the violations under `"fields"`
  error_message : String → Payload
  violations : String → Map String Reason → Payload
  -- The answers of health.go.
  status_version : String → String → Payload
  status_message : String → Option String → Payload
  login : LoginResponse → Payload
  user : UserResponse → Payload
  household : HouseholdResponse → Payload
  households : List HouseholdResponse → Payload
  membership : MembershipResponse → Payload
  created_user : CreatedHouseholdUserResponse → Payload
  account : AccountResponse → Payload
  accounts : List AccountResponse → Payload
  settings : SettingsResponse → Payload
  transaction : TransactionResponse → Payload
  transactions : List TransactionResponse → Payload
  balance : BalanceResponse → Payload
