-- ===== src/Account.antt =====
-- internal/domain/account/account.go: the data of accounts and the contract of their storage.
pub mod Logic
pub mod Fake
use pfm_go.Common.{String, List}
use pfm_go.Common.Int.{ℤ}
use pfm_go.Types.{Uuid, Time, AccountType, CurrencyCode, Status}
use pfm_go.Effect.{Action}

pub record Account : Type 0 where
  pub id : Uuid
  pub household_id : Uuid
  pub name : String
  pub account_type : AccountType
  pub currency_code : CurrencyCode
  pub balance : ℤ
  pub status : Status
  pub version : ℤ
  pub created_at : Time
  pub updated_at : Time
  pub created_by : Uuid
  pub updated_by : Uuid

pub record CreateInput : Type 0 where
  pub name : String
  pub account_type : AccountType
  pub currency_code : CurrencyCode

pub record UpdateNameInput : Type 0 where
  pub name : String

pub record UpdateBalanceInput : Type 0 where
  pub balance : ℤ

-- `Repository`, the reader and the writer, over a store `S`.
pub record Repository (S : Type 0) : Type 0 where
  pub find_by_id : Uuid → Action S Account
  pub list_for_household : Uuid → Action S (List Account)
  pub create : Uuid → CreateInput → Uuid → Action S Account
  pub update_name : Uuid → UpdateNameInput → ℤ → Uuid → Action S Account
  pub update_balance : Uuid → UpdateBalanceInput → ℤ → Uuid → Action S Account
  pub deactivate : Uuid → Uuid → Action S (Unit {0})
