-- ===== src/Ledger/Logic.antt =====
-- internal/domain/ledger/ledger_logic.go: the operations of `LedgerLogic`.
pub mod Balance
pub mod Guards
use pfm_go.Common.{
  ℕ, suc, ◌+◌, String, Bool, not, Option, none, some, List, [], ◌∷◌, length, ◌==◌, string_eq,
  if◌then◌else◌,
}
use pfm_go.Common.Int.{ℤ, pos, eqb_ℤ}
use pfm_go.Common.Int64.{add64}
use pfm_go.Types.{Uuid, entry_type_debit, entry_type_credit}
use pfm_go.Message.{Error, sentinel, wrapped, Sentinel, named, indexed}
use pfm_go.Effect.{Action, pure, ◌>>=◌, ◌>>◌, annotate, fail_if}
use pfm_go.Validate.{check, text, int, int64, required, positive, field, new_result}
use pfm_go.Database.{Transactor}
use pfm_go.Ledger.{
  Transaction, Entry, EntryInput, PostTransactionInput, HistoryQuery, TransactionWithEntries,
  Repository,
}

-- The checks of the description and of the number of entries.
unfoldable pub check_input : {S : Type 0} → PostTransactionInput → Action S (Unit {0})
check_input input = check (
    field (named "entries") (int (pos (length input.entries))) (positive ∷ [])
      (field (named "description") (text input.description) (required ∷ []) new_result))

-- The loop over the entries, each with a result of its own; it ends at the first violation.
unfoldable pub check_amounts : {S : Type 0} → ℕ → List EntryInput → Action S (Unit {0})
check_amounts i [] = pure tt
check_amounts i (e ∷ es) = do
  check (field (indexed "entries[%d].amount" i) (int64 e.amount) (positive ∷ []) new_result)
  check_amounts (suc i) es

-- One round of the loop that sums debits and credits on int64, by the `switch` on the type.
unfoldable pub tally : EntryInput → ℤ × ℤ → ℤ × ℤ
tally e (debit_sum, credit_sum) =
    if e.entry_type == entry_type_debit
    then (add64 debit_sum e.amount, credit_sum)
    else if e.entry_type == entry_type_credit
    then (debit_sum, add64 credit_sum e.amount)
    else (debit_sum, credit_sum)

unfoldable pub sum_entries : List EntryInput → ℤ × ℤ → ℤ × ℤ
unfolding tally
sum_entries [] sums = sums
sum_entries (e ∷ es) sums = sum_entries es (tally e sums)

-- `debitSum != creditSum`
unfoldable pub is_unbalanced : List EntryInput → Bool
unfolding sum_entries
is_unbalanced es =
    let (debit_sum, credit_sum) = sum_entries es (pos 0, pos 0) in not (eqb_ℤ debit_sum credit_sum)

abbrev pub unbalanced : String → Error
unbalanced format = wrapped format (sentinel Sentinel.ledger_unbalanced)

module _ {S : Type 0} (repo : Repository S) (tx : Transactor S) where
  unfoldable pub post_transaction :
      Uuid → PostTransactionInput → Uuid → Action S (Transaction × List Entry)
  post_transaction household_id input caller_id = do
    check_input input
    check_amounts 0 input.entries
    fail_if (is_unbalanced input.entries) (unbalanced "ledger logic: post transaction: %w")
    annotate "ledger logic: post transaction: %w"
        (tx.run_atomic (repo.post_transaction household_id input caller_id))

module _ {S : Type 0} (repo : Repository S) where
  unfoldable pub get_balance : Uuid → Action S ℤ
  get_balance account_id = annotate "ledger logic: get balance: %w" (repo.get_balance account_id)

  unfoldable pub get_transaction_history :
      Uuid → HistoryQuery → Action S (List TransactionWithEntries)
  get_transaction_history household_id query =
      annotate "ledger logic: get history: %w" (repo.get_transaction_history household_id query)
