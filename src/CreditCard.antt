-- ===== src/CreditCard.antt =====
-- internal/domain/creditcard/settings.go: the settings of credit cards and the contract of their
-- storage.
pub mod Logic
pub mod Fake
use pfm_go.Common.Int.{ℤ}
use pfm_go.Types.{Uuid, Time, AccountType}
use pfm_go.Effect.{Action}

pub record Settings : Type 0 where
  pub id : Uuid
  pub account_id : Uuid
  pub closing_day : ℤ
  pub due_day : ℤ
  pub limit_amount : ℤ
  pub version : ℤ
  pub created_at : Time
  pub updated_at : Time
  pub created_by : Uuid
  pub updated_by : Uuid

pub record CreateInput : Type 0 where
  pub closing_day : ℤ
  pub due_day : ℤ
  pub limit_amount : ℤ

pub record UpdateClosingDayInput : Type 0 where
  pub closing_day : ℤ

pub record UpdateDueDayInput : Type 0 where
  pub due_day : ℤ

pub record UpdateLimitInput : Type 0 where
  pub limit_amount : ℤ

-- `Repository`: `SettingsReader` and `SettingsWriter`
pub record Repository (S : Type 0) : Type 0 where
  pub find_by_account_id : Uuid → Action S Settings
  pub create : Uuid → CreateInput → Uuid → Action S Settings
  pub update_closing_day : Uuid → UpdateClosingDayInput → ℤ → Uuid → Action S Settings
  pub update_due_day : Uuid → UpdateDueDayInput → ℤ → Uuid → Action S Settings
  pub update_limit : Uuid → UpdateLimitInput → ℤ → Uuid → Action S Settings
  pub delete : Uuid → Uuid → Action S (Unit {0})

-- `accountTypeFinder`
pub record AccountTypeFinder (S : Type 0) : Type 0 where
  pub find_account_type : Uuid → Action S AccountType
