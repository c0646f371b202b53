-- ===== src/Postgres/Ledgers/Atomic.antt =====
-- internal/domain/ledger/ledger_logic.go over internal/adapter/postgres/ledger_repo.go and
-- internal/platform/database/transactor.go: a posting is stored whole or not at all.
use pfm_go.Common.{
  sym, false, ◌≡◌, refl, ap, ◌∙◌, ◌⊎◌, inl, inr, All, Option, String, List, [], ◌∷◌, Bool-cases,
  arith,
}
use pfm_go.Common.Int.{ℤ}
use pfm_go.Types.{Uuid, Time}
use pfm_go.Effect.{IsFailure, annotate-IsFailure, ok, Result-cases, annotate-state}
use pfm_go.Database.Postgres.{
  Driver, postgres_transactor, run_atomic, IsDurable, run_atomic-durable,
}
use pfm_go.Ledger.{Transaction, Entry, EntryInput, PostTransactionInput}
use pfm_go.Ledger.Logic.{is_unbalanced, check_input, check_amounts}
use pfm_go.Postgres.{time_to_pg_date, uuid_to_pg_uuid}
use pfm_go.Postgres.Ledgers.Balances.{
  shift, net_of, IsAmount, MovesBalances, post_transaction_moves,
}
use pfm_go.Ledger.Logic.Guards.{IsComplete, IsBalanced, post_transaction_accepts}
use pfm_go.Postgres.Ledgers.{
  Queries, delta_of, insert_entry, insert_entries, insert_all, ledger_repo,
}
use pfm_go.Ledger.Logic
use pfm_go.Postgres.Ledgers

-- Nobody else sees what the queries write before the commit.
pub record AreHidden {S D : Type 0} (q : Queries S) (durable : S → D) : Type 0 where
  pub transaction_hidden :
      (household_id : Uuid) (description : String) (date : Option Time) (created_by : Option Uuid)
      (s : S)
      → durable (q.insert_transaction household_id description date created_by s).1 ≡ durable s
  pub entry_hidden :
      (transaction_id account_id : Uuid) (entry_type : String) (amount : ℤ) (s : S)
      → durable (q.insert_ledger_entry transaction_id account_id entry_type amount s).1 ≡ durable s
  pub adjust_hidden :
      (id : Uuid) (delta : ℤ) (s : S) → durable (q.adjust_account_balance id delta s).1 ≡ durable s

module _ {S D : Type 0} (q : Queries S) (durable : S → D) (law : AreHidden q durable) where
  insert_entry_hidden :
      (transaction_id : Uuid) (e : EntryInput) (s : S)
      → durable (insert_entry q transaction_id e s).1 ≡ durable s
  unfolding insert_entry
  insert_entry_hidden transaction_id e s =
      let inserted = q.insert_ledger_entry transaction_id e.account_id e.entry_type e.amount s in
      ground (
        arith,
        law.entry_hidden transaction_id e.account_id e.entry_type e.amount s,
        law.adjust_hidden e.account_id (delta_of e) inserted.1,
      )

  insert_entries_hidden :
      (transaction_id : Uuid) (es : List EntryInput) (s : S)
      → durable (insert_entries q transaction_id es s).1 ≡ durable s
  unfolding insert_entries
  insert_entries_hidden transaction_id [] s = refl
  insert_entries_hidden transaction_id (e ∷ es) s =
      let inserted = insert_entry q transaction_id e s in
      ground (
        arith,
        insert_entry_hidden transaction_id e s,
        insert_entries_hidden transaction_id es inserted.1,
      )

  insert_all_hidden :
      (household_id : Uuid) (input : PostTransactionInput) (caller_id : Uuid) (s : S)
      → durable (insert_all q household_id input caller_id s).1 ≡ durable s
  unfolding insert_all
  insert_all_hidden household_id input caller_id s =
      let date = time_to_pg_date input.transaction_date in
      let caller = uuid_to_pg_uuid caller_id in
      let inserted = q.insert_transaction household_id input.description date caller s in
      let first = law.transaction_hidden household_id input.description date caller s in
      elim (Result-cases inserted.0) [
        | inr (inl (e, failed)) ↦ ground arith
        | inr (inr panicked) ↦ ground arith
        | inl (row, done) ↦ ground (arith, insert_entries_hidden row.id input.entries inserted.1)
      ]

  post_transaction_hidden :
      (household_id : Uuid) (input : PostTransactionInput) (caller_id : Uuid) (s : S)
      → durable (pfm_go.Postgres.Ledgers.post_transaction q household_id input caller_id s).1
        ≡ durable s
  unfolding pfm_go.Postgres.Ledgers.post_transaction
  post_transaction_hidden household_id input caller_id s =
      elim (Bool-cases (is_unbalanced input.entries)) [
        | inl refused ↦ rw refused
        | inr passed ↦ let done = insert_all_hidden household_id input caller_id s in ground arith
      ]

-- What others see of the balances: a transaction begins with them, and a commit publishes those
-- that it has.
pub record Publishes {S : Type 0} (driver : Driver S) (balance seen : S → Uuid → Option ℤ)
    : Type 0 where
  pub begin_reads :
      (s : S) → (driver.begin s).0 ≡ ok tt → (a : Uuid) → balance (driver.begin s).1 a ≡ seen s a
  pub commit_publishes :
      (s : S) → (driver.commit s).0 ≡ ok tt → (a : Uuid) → seen (driver.commit s).1 a ≡ balance s a

module _ {S : Type 0} (q : Queries S) (driver : Driver S) (balance seen : S → Uuid → Option ℤ)
    (moves : MovesBalances q balance) (hidden : AreHidden q seen) (durable : IsDurable driver seen)
    (publishes : Publishes driver balance seen) where
  -- A posting through the domain over PostgreSQL, of a complete and balanced input of int64
  -- amounts, is all or nothing: either it succeeds, and the balance that others see of every
  -- account which is not deleted has moved by the credits less the debits of its entries, or
  -- it fails and others see every balance as it was. The queries and the transactions do what is documented of
  -- them, and no other transaction commits meanwhile.
  pub post_transaction-IsAtomic :
      (household_id : Uuid) (input : PostTransactionInput) (caller_id : Uuid) (s : S)
      → IsComplete input
      → IsBalanced input
      → All IsAmount input.entries
      → let r =
          pfm_go.Ledger.Logic.post_transaction
            (ledger_repo q)
            (postgres_transactor driver false)
            household_id
            input
            caller_id
            s in
        ((stored : Transaction × List Entry) × (r.0 ≡ ok stored)
          × ((a : Uuid) → seen r.1 a ≡ shift (net_of a input.entries) (seen s a)))
        ⊎ (IsFailure r.0 × (seen r.1 ≡ seen s))
  post_transaction-IsAtomic household_id input caller_id s complete balanced amounts =
      let repo = ledger_repo q in
      let fn = pfm_go.Postgres.Ledgers.post_transaction q household_id input caller_id in
      let tx = postgres_transactor driver false in
      let through =
        post_transaction_accepts repo tx household_id input caller_id s complete balanced in
      let kept =
        annotate-state "ledger logic: post transaction: %w" (run_atomic driver false fn) s in
      let begun = (driver.begin s).1 in
      let posted = (fn begun).1 in
      elim (run_atomic-durable driver seen durable fn s
        (post_transaction_hidden q seen hidden household_id input caller_id)) [
          | inr (fails, same) ↦ inr (
            λ a h.
                annotate-IsFailure "ledger logic: post transaction: %w" (run_atomic driver false fn)
                  s fails a (sym (ap (λ p. p.0) through) ∙ h),
            ap (λ p. seen p.1) through ∙ ap seen kept ∙ same,
          )
          | inl (stored, started, done, published, committed) ↦ inl (
            stored,
            ap (λ p. p.0) through ∙ ground arith,
            λ a.
                ap (λ p. seen p.1 a) through
                ∙ ap (λ s'. seen s' a) kept
                ∙ ap (λ p. seen p.1 a) committed
                ∙ publishes.commit_publishes posted published a
                ∙ (post_transaction_moves q balance moves household_id input caller_id begun stored
                      amounts done).1
                    a
                ∙ ap (shift (net_of a input.entries)) (publishes.begin_reads s started a),
          )
        ]
