-- ===== src/Postgres/Ledgers.antt =====
-- internal/adapter/postgres/ledger_repo.go: the ledger's storage over PostgreSQL.
pub mod Balances
pub mod Atomic
use pfm_go.Common.{
  String, Bool, true, false, Option, none, some, List, [], ◌∷◌, map, ◌==◌, nat_eq, string_eq,
  if◌then◌else◌,
}
use pfm_go.Common.Int.{ℤ, pos, leb_ℤ}
use pfm_go.Common.Int64.{neg64}
use pfm_go.Types.{Uuid, Time, uuid_nil, entry_type_debit, entry_type_credit}
use pfm_go.Effect.{Action, pure, err, ◌>>=◌, ◌>>◌, annotate}
use pfm_go.Ledger.{
  Transaction, Entry, EntryInput, PostTransactionInput, HistoryQuery, TransactionWithEntries,
  Repository,
}
use pfm_go.Ledger.Logic.{is_unbalanced, unbalanced}
use pfm_go.Postgres.{
  uuid_to_pg_uuid, pg_uuid_to_uuid, pg_timestamptz_to_time, pg_date_to_time, time_to_pg_date, int32,
}

pub record TransactionRow : Type 0 where
  pub id : Uuid
  pub household_id : Uuid
  pub description : String
  pub transaction_date : Option Time
  pub created_at : Option Time
  pub created_by : Option Uuid

pub record EntryRow : Type 0 where
  pub id : Uuid
  pub transaction_id : Uuid
  pub account_id : Uuid
  pub entry_type : String
  pub amount : ℤ
  pub created_at : Option Time

-- The generated queries, with their parameters in the order of the fields of their `Params`.
pub record Queries (S : Type 0) : Type 0 where
  pub insert_transaction : Uuid → String → Option Time → Option Uuid → Action S TransactionRow
  pub insert_ledger_entry : Uuid → Uuid → String → ℤ → Action S EntryRow
  pub adjust_account_balance : Uuid → ℤ → Action S (Unit {0})
  pub get_account_balance : Uuid → Action S ℤ
  pub list_transaction_ids_for_account : Uuid → Action S (List Uuid)
  pub list_transactions_for_household : Uuid → ℤ → ℤ → Action S (List TransactionRow)
  pub list_entries_for_transaction : Uuid → Action S (List EntryRow)

unfoldable transaction_from_row : TransactionRow → Transaction
unfolding pg_uuid_to_uuid pg_timestamptz_to_time pg_date_to_time
transaction_from_row row = record {
  id = row.id;
  household_id = row.household_id;
  description = row.description;
  transaction_date = pg_date_to_time row.transaction_date;
  created_at = pg_timestamptz_to_time row.created_at;
  created_by = pg_uuid_to_uuid row.created_by;
}

unfoldable entry_from_row : EntryRow → Entry
unfolding pg_timestamptz_to_time
entry_from_row row = record {
  id = row.id;
  transaction_id = row.transaction_id;
  account_id = row.account_id;
  entry_type = row.entry_type;
  amount = row.amount;
  created_at = pg_timestamptz_to_time row.created_at;
}

-- Credits increase a balance, debits decrease it; any other type leaves it alone.
unfoldable pub delta_of : EntryInput → ℤ
delta_of e =
    if e.entry_type == entry_type_credit
    then e.amount
    else if e.entry_type == entry_type_debit
    then neg64 e.amount
    else pos 0

-- `txFilter`: the transactions that the history is limited to, if it is limited.
unfoldable is_listed : Uuid → List Uuid → Bool
is_listed id [] = false
is_listed id (x ∷ xs) = let rest = is_listed id xs in if x == id then true else rest

unfoldable is_skipped : Option (List Uuid) → Uuid → Bool
unfolding is_listed
is_skipped none id = false
is_skipped (some ids) id = if is_listed id ids then false else true

unfoldable query_limit : ℤ → ℤ
unfolding int32
query_limit n = let limit = int32 n in if leb_ℤ limit (pos 0) then pos 50 else limit

module _ {S : Type 0} (q : Queries S) where
  -- One round of the loop over the entries.
  unfoldable pub insert_entry : Uuid → EntryInput → Action S Entry
  unfolding delta_of entry_from_row
  insert_entry transaction_id e = do
    row ←
        annotate "ledger: post transaction: %w"
          (q.insert_ledger_entry transaction_id e.account_id e.entry_type e.amount)
    annotate "ledger: post transaction: %w" (q.adjust_account_balance e.account_id (delta_of e))
    pure (entry_from_row row)

  unfoldable pub insert_entries : Uuid → List EntryInput → Action S (List Entry)
  unfolding insert_entry
  insert_entries transaction_id [] = pure []
  insert_entries transaction_id (e ∷ es) = do
    entry ← insert_entry transaction_id e
    entries ← insert_entries transaction_id es
    pure (entry ∷ entries)

  unfoldable pub insert_all :
      Uuid → PostTransactionInput → Uuid → Action S (Transaction × List Entry)
  unfolding time_to_pg_date uuid_to_pg_uuid insert_entries transaction_from_row
  insert_all household_id input caller_id = do
    row ← annotate "ledger: post transaction: %w" (
        q.insert_transaction household_id input.description (time_to_pg_date input.transaction_date)
          (uuid_to_pg_uuid caller_id))
    entries ← insert_entries row.id input.entries
    pure (transaction_from_row row, entries)

  -- The sums are compared before any write.
  unfoldable pub post_transaction :
      Uuid → PostTransactionInput → Uuid → Action S (Transaction × List Entry)
  unfolding insert_all
  post_transaction household_id input caller_id s =
      if is_unbalanced input.entries
      then (err (unbalanced "ledger: post transaction: %w"), s)
      else insert_all household_id input caller_id s

  unfoldable pub get_balance : Uuid → Action S ℤ
  get_balance account_id = annotate "ledger: get balance: %w" (q.get_account_balance account_id)

  unfoldable transaction_filter : Uuid → Action S (Option (List Uuid))
  transaction_filter account_id = if account_id == uuid_nil then pure none else do
    ids ←
        annotate "ledger: get transaction history: %w"
          (q.list_transaction_ids_for_account account_id)
    pure (some ids)

  unfoldable with_entries : TransactionRow → Action S TransactionWithEntries
  unfolding transaction_from_row entry_from_row
  with_entries row = do
    entries ← annotate "ledger: get transaction history: %w" (q.list_entries_for_transaction row.id)
    pure (record { transaction = transaction_from_row row; entries = map entry_from_row entries })

  -- The loop over the transactions.
  unfoldable pub collect :
      Option (List Uuid) → List TransactionRow → Action S (List TransactionWithEntries)
  unfolding is_skipped with_entries
  collect filter [] = pure []
  collect filter (row ∷ rows) =
      let rest = collect filter rows in
      if is_skipped filter row.id then rest else do t ← with_entries row; ts ← rest; pure (t ∷ ts)

  unfoldable pub get_transaction_history :
      Uuid → HistoryQuery → Action S (List TransactionWithEntries)
  unfolding transaction_filter query_limit int32 collect
  get_transaction_history household_id query = do
    filter ← transaction_filter query.account_id
    rows ← annotate "ledger: get transaction history: %w" (
        q.list_transactions_for_household household_id (query_limit query.limit)
          (int32 query.offset))
    collect filter rows

  abbrev pub ledger_repo : Repository S
  ledger_repo = record {
    get_balance = get_balance;
    get_transaction_history = get_transaction_history;
    post_transaction = post_transaction;
  }
