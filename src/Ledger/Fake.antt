-- ===== src/Ledger/Fake.antt =====
-- internal/adapter/postgres/fake_ledger_repo.go: the ledger's storage in memory.
pub mod Books
pub mod History
pub mod Postings
pub mod Pages
pub mod TrialBalance
use pfm_go.Common.{
  ℕ, zero, suc, ◌+◌, Bool, true, false, not, ◌&&◌, Option, none, some, List, [], ◌∷◌, ◌++◌, length,
  take, drop, ltb, leb, ◌==◌, nat_eq, string_eq, if◌then◌else◌,
}
use pfm_go.Common.Int.{ℤ, pos, negsuc}
use pfm_go.Common.Int64.{add64, sub64}
use pfm_go.Types.{Uuid, uuid_nil, zero_time, EntryType, entry_type_debit, entry_type_credit}
use pfm_go.Message.{Error}
use pfm_go.Effect.{Result, ok, err, panic, Action}
use pfm_go.GoMap.{Map, lookup, insert}
use pfm_go.Ledger.{
  Transaction, Entry, EntryInput, PostTransactionInput, HistoryQuery, TransactionWithEntries,
  Repository,
}
use pfm_go.Ledger.Logic.{is_unbalanced, unbalanced}

-- `drawn` counts the calls of `uuid.New`; the other fields are the source's.
pub record FakeLedgerRepository : Type 0 where
  pub transactions : List Transaction
  pub entries : List Entry
  pub balances : Map Uuid ℤ
  pub err : Option Error
  pub drawn : ℕ

abbrev pub new_fake_ledger_repository : FakeLedgerRepository
new_fake_ledger_repository = record {
  transactions = [];
  entries = [];
  balances = [];
  err = none;
  drawn = 0;
}

unfoldable pub set_error : Option Error → FakeLedgerRepository → FakeLedgerRepository
set_error e f = record f { err = e }

-- `f.balances[id]`: a missing key reads as zero.
unfoldable pub balance_of : Uuid → Map Uuid ℤ → ℤ
balance_of id m = elim (lookup id m) [ none ↦ pos 0 | some b ↦ b ]

-- Credits increase a balance, debits decrease it; any other type leaves it alone.
unfoldable pub update_balance : EntryInput → Map Uuid ℤ → Map Uuid ℤ
unfolding balance_of
update_balance e m =
    if e.entry_type == entry_type_credit
    then insert e.account_id (add64 (balance_of e.account_id m) e.amount) m
    else if e.entry_type == entry_type_debit
    then insert e.account_id (sub64 (balance_of e.account_id m) e.amount) m
    else m

-- `uuid.New` is not part of the program: the calls return the values of `uuid_new` in turn.
module _ (uuid_new : ℕ → Uuid) where
  unfoldable pub new_entry : Uuid → EntryInput → ℕ → Entry
  new_entry transaction_id e drawn = record {
    id = uuid_new drawn;
    transaction_id = transaction_id;
    account_id = e.account_id;
    entry_type = e.entry_type;
    amount = e.amount;
    created_at = zero_time;
  }

  -- One round of the loop over the entries.
  unfoldable pub store_entry : Uuid → EntryInput → FakeLedgerRepository → FakeLedgerRepository
  unfolding new_entry update_balance
  store_entry transaction_id e f = record f {
    entries = f.entries ++ new_entry transaction_id e f.drawn ∷ [];
    balances = update_balance e f.balances;
    drawn = f.drawn + 1;
  }

  -- The loop; the entries that it returns are those that it appends.
  unfoldable pub store_entries :
      Uuid → List EntryInput → FakeLedgerRepository → List Entry × FakeLedgerRepository
  unfolding store_entry
  store_entries transaction_id [] f = ([], f)
  store_entries transaction_id (e ∷ es) f =
      let (stored, f') = store_entries transaction_id es (store_entry transaction_id e f) in
      (new_entry transaction_id e f.drawn ∷ stored, f')

  unfoldable pub new_transaction : Uuid → PostTransactionInput → Uuid → ℕ → Transaction
  new_transaction household_id input caller_id drawn = record {
    id = uuid_new drawn;
    household_id = household_id;
    description = input.description;
    transaction_date = input.transaction_date;
    created_at = zero_time;
    created_by = caller_id;
  }

  unfoldable pub store_transaction : Transaction → FakeLedgerRepository → FakeLedgerRepository
  store_transaction t f = record f { transactions = f.transactions ++ t ∷ []; drawn = f.drawn + 1 }

  unfoldable pub post_transaction :
      Uuid → PostTransactionInput → Uuid → Action FakeLedgerRepository (Transaction × List Entry)
  unfolding new_transaction store_transaction store_entries
  post_transaction household_id input caller_id f = elim f.err [
    | some e ↦ (Result.err e, f)
    | none ↦
        if is_unbalanced input.entries
        then (Result.err (unbalanced "ledger: post transaction: %w"), f)
        else let t = new_transaction household_id input caller_id f.drawn in
          let (stored, f') = store_entries t.id input.entries (store_transaction t f) in
          (ok (t, stored), f')
  ]

unfoldable pub get_balance : Uuid → Action FakeLedgerRepository ℤ
unfolding balance_of
get_balance account_id f = elim f.err [
  | some e ↦ (Result.err e, f)
  | none ↦ (ok (balance_of account_id f.balances), f)
]

-- The entry passes the filter of the query.
unfoldable pub matches : HistoryQuery → Entry → Bool
matches query e = not (not (query.account_id == uuid_nil) && not (e.account_id == query.account_id))

-- `txIDs[id]` after the loop over the entries
unfoldable pub has_match : HistoryQuery → List Entry → Uuid → Bool
unfolding matches
has_match query [] id = false
has_match query (e ∷ es) id =
    let rest = has_match query es id in
    if matches query e && e.transaction_id == id then true else rest

unfoldable pub entries_of : Uuid → List Entry → List Entry
entries_of id [] = []
entries_of id (e ∷ es) =
    let rest = entries_of id es in if e.transaction_id == id then e ∷ rest else rest

-- The loop over the transactions, with its two `continue`s.
unfoldable pub collect :
    Uuid → HistoryQuery → List Entry → List Transaction → List TransactionWithEntries
unfolding has_match entries_of
collect household_id query es [] = []
collect household_id query es (t ∷ ts) =
    let rest = collect household_id query es ts in
    if not (t.household_id == household_id)
    then rest
    else if not (has_match query es t.id)
    then rest
    else record { transaction = t; entries = entries_of t.id es } ∷ rest

-- `if query.Limit > 0 && len(results) > query.Limit { results = results[:query.Limit] }`
unfoldable pub limited : {A : Type 0} → ℤ → List A → List A
limited (negsuc _) results = results
limited (pos zero) results = results
limited (pos (suc n)) results =
    if ltb (suc n) (length results) then take (suc n) results else results

-- The pagination; a negative offset is out of the slice's range.
unfoldable pub paginate : {A : Type 0} → ℤ → ℤ → List A → Result (List A)
unfolding limited
paginate (negsuc _) limit results = panic
paginate (pos offset) limit results =
    if leb (length results) offset then ok [] else ok (limited limit (drop offset results))

unfoldable pub get_transaction_history :
    Uuid → HistoryQuery → Action FakeLedgerRepository (List TransactionWithEntries)
unfolding collect paginate
get_transaction_history household_id query f = elim f.err [
  | some e ↦ (Result.err e, f)
  | none ↦
      (paginate query.offset query.limit (collect household_id query f.entries f.transactions), f)
]

abbrev pub fake_ledger_repository : (ℕ → Uuid) → Repository FakeLedgerRepository
fake_ledger_repository uuid_new = record {
  get_balance = get_balance;
  get_transaction_history = get_transaction_history;
  post_transaction = post_transaction uuid_new;
}
