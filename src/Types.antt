-- ===== src/Types.antt =====
-- The value types of internal/types, and those of packages that the program imports: a UUID and a
-- time are only compared and passed on, so they are numbers. The string types of the program are
-- texts, since a value of another spelling can be converted to them.
use pfm_go.Common.{ℕ, String}

-- uuid.UUID, with uuid.Nil
abbrev pub Uuid : Type 0
Uuid = ℕ

abbrev pub uuid_nil : Uuid
uuid_nil = 0

-- time.Time, with the zero time
abbrev pub Time : Type 0
Time = ℕ

abbrev pub zero_time : Time
zero_time = 0

abbrev pub AccountType : Type 0
AccountType = String

abbrev pub account_type_checking : AccountType
account_type_checking = "CHECKING"

abbrev pub account_type_savings : AccountType
account_type_savings = "SAVINGS"

abbrev pub account_type_credit_card : AccountType
account_type_credit_card = "CREDIT_CARD"

abbrev pub account_type_investment : AccountType
account_type_investment = "INVESTMENT"

abbrev pub CurrencyCode : Type 0
CurrencyCode = String

abbrev pub currency_usd : CurrencyCode
currency_usd = "USD"

abbrev pub currency_brl : CurrencyCode
currency_brl = "BRL"

abbrev pub currency_eur : CurrencyCode
currency_eur = "EUR"

abbrev pub EntryType : Type 0
EntryType = String

abbrev pub entry_type_debit : EntryType
entry_type_debit = "DEBIT"

abbrev pub entry_type_credit : EntryType
entry_type_credit = "CREDIT"

abbrev pub Role : Type 0
Role = String

abbrev pub role_admin : Role
role_admin = "ADMIN"

abbrev pub role_member : Role
role_member = "MEMBER"

abbrev pub Status : Type 0
Status = String

abbrev pub status_active : Status
status_active = "ACTIVE"

abbrev pub status_inactive : Status
status_inactive = "INACTIVE"
