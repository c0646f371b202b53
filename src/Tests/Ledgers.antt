-- ===== src/Tests/Ledgers.antt =====
-- internal/domain/ledger and internal/adapter/postgres/fake_ledger_repo.go at concrete inputs.
use pfm_go.Common.{
  ℕ, ◌+◌, ◌<◌, ◌≤◌, ◌≡◌, refl, ◌↔◌, none, List, [], ◌∷◌, ◌++◌, length, get_elem?, All, false, arith,
}
use pfm_go.Common.Int.{ℤ, pos, negsuc, ◌+ℤ◌, ◌-ℤ◌}
use pfm_go.Common.Int64.{bits, wrap, add64, sub64}
use pfm_go.Types.{Uuid, uuid_nil, entry_type_debit, entry_type_credit}
use pfm_go.Message.{Violation, validation}
use pfm_go.Effect.{ok, err, annotate}
use pfm_go.GoMap.{lookup, insert}
use pfm_go.Database.{fake_transactor}
use pfm_go.Ledger.{Transaction, Entry, EntryInput, PostTransactionInput, HistoryQuery}
use pfm_go.Ledger.Logic
use pfm_go.Ledger.Logic.{is_unbalanced, unbalanced}
use pfm_go.Ledger.Logic.Balance.{total, is_unbalanced_iff}
use pfm_go.Ledger.Logic.Guards.{
  post_transaction_accepts, post_transaction_refuses_unbalanced,
  post_transaction_refuses_incomplete,
}
use pfm_go.Ledger.Fake.{
  FakeLedgerRepository, new_fake_ledger_repository, post_transaction, get_balance, collect,
  paginate, fake_ledger_repository, balance_of,
}
use pfm_go.Ledger.Fake.Books.{AgreesAt, post_transaction-AgreesAt}
use pfm_go.Ledger.Fake.Postings.{Posting, post_all, posted, get_balance-post_all}
use pfm_go.Ledger.Fake.TrialBalance.{trial_balance, post_transaction-trial_balance}
use pfm_go.Ledger.Fake.History.{BelongsTo, post_transaction_history, collect-BelongsTo}
use pfm_go.Ledger.Fake.Pages.{paginate-items}

abbrev id_of : ℕ → Uuid
id_of n = n + 100

abbrev debit : Uuid → ℤ → EntryInput
debit a n = record { account_id = a; entry_type = entry_type_debit; amount = n }

abbrev credit : Uuid → ℤ → EntryInput
credit a n = record { account_id = a; entry_type = entry_type_credit; amount = n }

-- 500 from account 1 to account 2
abbrev rent : PostTransactionInput
rent = record {
  description = "rent";
  transaction_date = 0;
  entries = debit 1 (pos 500) ∷ credit 2 (pos 500) ∷ [];
}

abbrev lopsided : PostTransactionInput
lopsided = record {
  description = "rent";
  transaction_date = 0;
  entries = debit 1 (pos 500) ∷ credit 2 (pos 400) ∷ [];
}

abbrev without_entries : PostTransactionInput
without_entries = record { description = "rent"; transaction_date = 0; entries = [] }

abbrev start : FakeLedgerRepository
start = new_fake_ledger_repository

abbrev everything : HistoryQuery
everything = record { account_id = uuid_nil; offset = pos 0; limit = pos 0 }

-- The balances after a transfer of 500.
balances_after :
    (post_transaction id_of 7 rent 3 start).1.balances ≡ (1, negsuc 499) ∷ (2, pos 500) ∷ []
unfolding post_transaction is_unbalanced add64 sub64 ◌+ℤ◌ ◌-ℤ◌ insert lookup
balances_after = refl

start-AgreesAt : (a : Uuid) → AgreesAt a start
unfolding balance_of lookup
start-AgreesAt a = record { fits = ground arith; agrees = refl }

post_transaction-trial_balance_example :
    trial_balance (post_transaction id_of 7 rent 3 start).1.balances ≡ trial_balance start.balances
post_transaction-trial_balance_example = post_transaction-trial_balance id_of 7 rent 3 start

post_transaction-AgreesAt_example : AgreesAt 2 (post_transaction id_of 7 rent 3 start).1
post_transaction-AgreesAt_example =
    post_transaction-AgreesAt id_of 2 7 rent 3 start (start-AgreesAt 2)

abbrev after_rent : FakeLedgerRepository
after_rent = (post_transaction id_of 7 rent 3 start).1

after_rent_works : after_rent.err ≡ none
unfolding post_transaction is_unbalanced add64 ◌+ℤ◌
after_rent_works = refl

abbrev rent_and_more : List Posting
rent_and_more =
    record { household_id = 7; input = rent; caller_id = 3 }
    ∷ record { household_id = 7; input = lopsided; caller_id = 3 }
    ∷ []

get_balance-post_all_example :
    let f = post_all id_of rent_and_more new_fake_ledger_repository in
    get_balance 2 f ≡ (ok (wrap (posted 2 rent_and_more)), f)
get_balance-post_all_example = get_balance-post_all id_of rent_and_more 2

-- The posting that is not balanced is left out.
rent_only : posted 2 rent_and_more ≡ pos 500
unfolding bits ◌+ℤ◌
rent_only = refl

post_transaction_accepts_example :
    Logic.post_transaction (fake_ledger_repository id_of) fake_transactor 7 rent 3 start
    ≡ annotate "ledger logic: post transaction: %w"
        (fake_transactor.run_atomic ((fake_ledger_repository id_of).post_transaction 7 rent 3))
        start
post_transaction_accepts_example =
    post_transaction_accepts (fake_ledger_repository id_of) fake_transactor 7 rent 3 start
      (λ e. cc, ground arith, (ground arith, (ground arith, tt))) refl

post_transaction_refuses_unbalanced_example :
    Logic.post_transaction (fake_ledger_repository id_of) fake_transactor 7 lopsided 3 start
    ≡ (err (unbalanced "ledger logic: post transaction: %w"), start)
unfolding bits ◌+ℤ◌
post_transaction_refuses_unbalanced_example =
    post_transaction_refuses_unbalanced (fake_ledger_repository id_of) fake_transactor 7 lopsided 3
      start (λ e. cc, ground arith, (ground arith, (ground arith, tt))) (λ e. ground arith)

post_transaction_refuses_incomplete_example :
    (vs : List Violation) × (Logic.post_transaction
        (fake_ledger_repository id_of)
        fake_transactor
        7
        without_entries
        3
        start
      ≡ (err (validation vs), start))
post_transaction_refuses_incomplete_example =
    post_transaction_refuses_incomplete (fake_ledger_repository id_of) fake_transactor 7
      without_entries 3 start (λ h. let z : 0 < 0 = h.1 in ground arith)

is_unbalanced_iff_example :
    (is_unbalanced rent.entries ≡ false)
    ↔ (bits (total entry_type_debit rent.entries) ≡ bits (total entry_type_credit rent.entries))
is_unbalanced_iff_example = is_unbalanced_iff rent.entries

post_transaction_history_example :
    let (r, f') = post_transaction id_of 7 rent 3 start in
    (t : Transaction) × (stored : List Entry) × (r ≡ ok (t, stored))
    × (collect 7 everything f'.entries f'.transactions
        ≡ collect 7 everything start.entries start.transactions
          ++ record { transaction = t; entries = stored } ∷ [])
unfolding is_unbalanced add64 ◌+ℤ◌
post_transaction_history_example =
    post_transaction_history id_of 7 rent 3 everything start refl refl (ground arith) refl (tt, tt)

collect-BelongsTo_example :
    All (BelongsTo 7) (collect 7 everything after_rent.entries after_rent.transactions)
collect-BelongsTo_example =
    collect-BelongsTo 7 everything after_rent.entries after_rent.transactions

abbrev four : List ℕ
four = 10 ∷ 11 ∷ 12 ∷ 13 ∷ []

paginate-items_example :
    ((page : List ℕ) × (paginate (pos 1) (pos 2) four ≡ ok page)
      × (length page ≤ 2)
      × ((i : ℕ) → i < 2 → get_elem? page i ≡ get_elem? four (1 + i)))
    × ((page : List ℕ) × (paginate (pos 1) (pos 0) four ≡ ok page)
        × (paginate (pos 1) (negsuc 1) four ≡ ok page)
        × ((i : ℕ) → get_elem? page i ≡ get_elem? four (1 + i)))
paginate-items_example = paginate-items 1 1 four
