-- ===== src/Postgres/Outcomes.antt =====
-- internal/adapter/postgres: a query whose errors are reported as others.
use pfm_go.Common.{String, ◌≡◌, Bool-cases, inl, inr, arith}
use pfm_go.Message.{Sentinel}
use pfm_go.Effect.{Action, ok, Result-cases}
use pfm_go.Postgres.{DriverErrors, is_unique_violation, or_violation}

module _ (errors : DriverErrors) {S A : Type 0} (format constraint_name : String)
    (sentinel : Sentinel) (query : Action S A) (s : S) where
  -- The report changes nothing of the store.
  pub or_violation-state :
      (or_violation errors format constraint_name sentinel query s).1 ≡ (query s).1
  unfolding or_violation
  or_violation-state = elim (Result-cases (query s).0) [
    | inl (a, done) ↦ ground arith
    | inr (inr panicked) ↦ ground arith
    | inr (inl (e, failed)) ↦ elim (Bool-cases (is_unique_violation errors e constraint_name)) [
      | inl violated ↦ ground arith
      | inr other ↦ ground arith
    ]
  ]

  pub or_violation-ok :
      (a : A)
      → (or_violation errors format constraint_name sentinel query s).0 ≡ ok a
      → (query s).0 ≡ ok a
  unfolding or_violation
  or_violation-ok a reported = elim (Result-cases (query s).0) [
    | inl (b, done) ↦ ground arith
    | inr (inr panicked) ↦ absurd (ground arith)
    | inr (inl (e, failed)) ↦ elim (Bool-cases (is_unique_violation errors e constraint_name)) [
      | inl violated ↦ absurd (ground arith)
      | inr other ↦ absurd (ground arith)
    ]
  ]
