-- ===== src/Tests/Storage.antt =====
-- internal/adapter/postgres and internal/platform/database over a small database at concrete
-- inputs.
use pfm_go.Common.{
  ◌≡◌, refl, false, ◌⊎◌, inl, Option, none, some, String, List, [], ◌∷◌, ◌==◌, nat_eq, arith,
  if◌then◌else◌,
}
use pfm_go.Common.Int.{ℤ, pos, ◌+ℤ◌, ◌-ℤ◌}
use pfm_go.Common.Int64.{add64, neg64}
use pfm_go.Types.{Uuid, entry_type_debit, entry_type_credit}
use pfm_go.Effect.{IsFailure, ok}
use pfm_go.Database.Postgres.{Driver, IsDurable, postgres_transactor, run_atomic, finish}
use pfm_go.Ledger.{Transaction, Entry, PostTransactionInput}
use pfm_go.Postgres.Ledgers.{
  Queries, post_transaction, ledger_repo, insert_all, insert_entries, insert_entry, delta_of,
}
use pfm_go.Postgres.Ledgers.Balances.{shift, net_of, MovesBalances}
use pfm_go.Postgres.Ledgers.Atomic.{AreHidden, Publishes, post_transaction-IsAtomic}
use pfm_go.Ledger.Logic
use pfm_go.Ledger.Logic.{is_unbalanced}
use pfm_go.Validate.{check, field, required, positive}

-- The balances of the accounts 1 and 2.
pub record Balances : Type 0 where
  pub one : ℤ
  pub two : ℤ

-- What the running transaction has, and what others see.
pub record Store : Type 0 where
  pub working : Balances
  pub published : Balances

abbrev read : Balances → Uuid → Option ℤ
read b a = if a == 1 then some b.one else if a == 2 then some b.two else none

abbrev adjust : Uuid → ℤ → Balances → Balances
adjust id delta b = record {
  one = if id == 1 then b.one +ℤ delta else b.one;
  two = if id == 2 then b.two +ℤ delta else b.two;
}

abbrev balance : Store → Uuid → Option ℤ
balance s = read s.working

abbrev seen : Store → Uuid → Option ℤ
seen s = read s.published

abbrev driver : Driver Store
driver = record {
  begin = λ s. (ok tt, record { working = s.published; published = s.published });
  commit = λ s. (ok tt, record { working = s.working; published = s.working });
  rollback = λ s. (ok tt, record { working = s.published; published = s.published });
}

abbrev ledger_queries : Queries Store
ledger_queries = record {
  insert_transaction = λ household_id description date created_by s. (
    ok (record {
      id = 50;
      household_id = household_id;
      description = description;
      transaction_date = date;
      created_at = none;
      created_by = created_by;
    }),
    s,
  );
  insert_ledger_entry = λ transaction_id account_id entry_type amount s. (
    ok (record {
      id = 60;
      transaction_id = transaction_id;
      account_id = account_id;
      entry_type = entry_type;
      amount = amount;
      created_at = none;
    }),
    s,
  );
  adjust_account_balance = λ id delta s.
      (ok tt, record { working = adjust id delta s.working; published = s.published });
  get_account_balance = λ id s. (ok (pos 0), s);
  list_transaction_ids_for_account = λ id s. (ok [], s);
  list_transactions_for_household = λ household_id limit offset s. (ok [], s);
  list_entries_for_transaction = λ id s. (ok [], s);
}

ledger_queries-MovesBalances : MovesBalances ledger_queries balance
ledger_queries-MovesBalances = record {
  transaction_keeps = λ _ _ _ _ _ _. refl;
  entry_keeps = λ _ _ _ _ _ _. refl;
  adjust_moves = λ id delta s done a. ground arith;
}

ledger_queries-AreHidden : AreHidden ledger_queries seen
ledger_queries-AreHidden = record {
  transaction_hidden = λ _ _ _ _ _. refl;
  entry_hidden = λ _ _ _ _ _. refl;
  adjust_hidden = λ _ _ _. refl;
}

driver-IsDurable : IsDurable driver seen
driver-IsDurable = record {
  begin_keeps = λ s. refl;
  rollback_keeps = λ s. refl;
  commit_keeps = λ s. inl refl;
}

driver-Publishes : Publishes driver balance seen
driver-Publishes = record { begin_reads = λ s started a. refl; commit_publishes = λ s done a. refl }

-- 500 from account 1 to account 2
abbrev rent : PostTransactionInput
rent = record {
  description = "rent";
  transaction_date = 0;
  entries =
      record { account_id = 1; entry_type = entry_type_debit; amount = pos 500 }
      ∷ record { account_id = 2; entry_type = entry_type_credit; amount = pos 500 }
      ∷ [];
}

abbrev start : Store
start =
    let b : Balances = record { one = pos 900; two = pos 0 } in
    record { working = b; published = b }

post_transaction-IsAtomic_example :
    let r =
      Logic.post_transaction
        (ledger_repo ledger_queries)
        (postgres_transactor driver false)
        7
        rent
        3
        start in
    ((stored : Transaction × List Entry) × (r.0 ≡ ok stored)
      × ((a : Uuid) → seen r.1 a ≡ shift (net_of a rent.entries) (seen start a)))
    ⊎ (IsFailure r.0 × (seen r.1 ≡ seen start))
post_transaction-IsAtomic_example =
    post_transaction-IsAtomic ledger_queries driver balance seen ledger_queries-MovesBalances
      ledger_queries-AreHidden driver-IsDurable driver-Publishes 7 rent 3 start
      (λ e. cc, ground arith, (ground arith, (ground arith, tt))) refl
      ((ground arith, ground arith), ((ground arith, ground arith), tt))

-- The transfer succeeds, and others see it.
rent_is_seen :
    let r =
      Logic.post_transaction
        (ledger_repo ledger_queries)
        (postgres_transactor driver false)
        7
        rent
        3
        start in
    (seen r.1 1 ≡ some (pos 400)) × (seen r.1 2 ≡ some (pos 500))
unfolding Logic.post_transaction Logic.check_input Logic.check_amounts check field required positive
    is_unbalanced run_atomic finish post_transaction insert_all insert_entries insert_entry delta_of
    neg64 add64 ◌+ℤ◌ ◌-ℤ◌
rent_is_seen = (refl, refl)

abbrev rent_row : Transaction
rent_row = record {
  id = 50;
  household_id = 7;
  description = "rent";
  transaction_date = 0;
  created_at = 0;
  created_by = 3;
}

abbrev entry_row : Uuid → String → Entry
entry_row account_id entry_type = record {
  id = 60;
  transaction_id = 50;
  account_id = account_id;
  entry_type = entry_type;
  amount = pos 500;
  created_at = 0;
}

rent_is_stored :
    (post_transaction ledger_queries 7 rent 3 start).0
    ≡ ok (rent_row, entry_row 1 entry_type_debit ∷ entry_row 2 entry_type_credit ∷ [])
unfolding is_unbalanced post_transaction add64 ◌+ℤ◌
rent_is_stored = refl
