-- ===== src/Ledger.antt =====
-- internal/domain/ledger/ledger.go: the data of the ledger and the contract of its storage.
pub mod Logic
pub mod Fake
use pfm_go.Common.{String, List}
use pfm_go.Common.Int.{ℤ}
use pfm_go.Types.{Uuid, Time, EntryType}
use pfm_go.Effect.{Action}

pub record Transaction : Type 0 where
  pub id : Uuid
  pub household_id : Uuid
  pub description : String
  pub transaction_date : Time
  pub created_at : Time
  pub created_by : Uuid

pub record Entry : Type 0 where
  pub id : Uuid
  pub transaction_id : Uuid
  pub account_id : Uuid
  pub entry_type : EntryType
  pub amount : ℤ
  pub created_at : Time

pub record EntryInput : Type 0 where
  pub account_id : Uuid
  pub entry_type : EntryType
  pub amount : ℤ

pub record PostTransactionInput : Type 0 where
  pub description : String
  pub transaction_date : Time
  pub entries : List EntryInput

pub record HistoryQuery : Type 0 where
  pub account_id : Uuid
  pub offset : ℤ
  pub limit : ℤ

pub record TransactionWithEntries : Type 0 where
  pub transaction : Transaction
  pub entries : List Entry

-- `Repository`, the reader and the writer, over a store `S`.
pub record Repository (S : Type 0) : Type 0 where
  pub get_balance : Uuid → Action S ℤ
  pub get_transaction_history : Uuid → HistoryQuery → Action S (List TransactionWithEntries)
  pub post_transaction : Uuid → PostTransactionInput → Uuid → Action S (Transaction × List Entry)
