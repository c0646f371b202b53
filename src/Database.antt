-- ===== src/Database.antt =====
-- internal/platform/database: what the domain sees of transactions, and the test double.
pub mod Postgres
use pfm_go.Common.{Bool, true, false}
use pfm_go.Message.{wrapped}
use pfm_go.Effect.{Result, ok, err, panic, Action}

-- `Transactor`: runs a function that works on the store. The source hands the function's result
-- out through variables that it captures; here it is the result of the call.
pub record Transactor (S : Type 0) : Type 1 where
  pub run_atomic : {A : Type 0} → Action S A → Action S A

-- What `FakeTransactor.RunAtomic` returns for the function's outcome.
pub reported : {A : Type 0} → Result A → Result A
reported (ok a) = ok a
reported (err e) = err (wrapped "transactor: run atomic: %w" e)
reported panic = panic

-- Whether the last call committed: `f.committed = err == nil`.
unfoldable pub committed : {A : Type 0} → Result A → Bool
committed (ok a) = true
committed (err e) = false
committed panic = false

-- `FakeTransactor` calls the function with no transaction.
unfoldable pub fake_run_atomic : {S A : Type 0} → Action S A → Action S A
unfolding reported
fake_run_atomic fn s = let (r, s') = fn s in (reported r, s')

abbrev pub fake_transactor : {S : Type 0} → Transactor S
fake_transactor = record { run_atomic = λ fn. fake_run_atomic fn }
