-- ===== src/Database/Postgres.antt =====
-- internal/platform/database/transactor.go: transactions over the driver.
use pfm_go.Common.{Bool, false, ◌≡◌, sym, refl, ◌⊎◌, inl, inr, if◌then◌else◌, ◌∙◌, ap, arith}
use pfm_go.Message.{wrapped}
use pfm_go.Effect.{IsFailure, Result, ok, err, panic, Action, pure, ◌>>◌, annotate, Result-cases}
use pfm_go.Database.{Transactor}

-- The calls of the driver on the pool and on a transaction.
pub record Driver (S : Type 0) : Type 0 where
  pub begin : Action S (Unit {0})
  pub commit : Action S (Unit {0})
  pub rollback : Action S (Unit {0})

module _ {S : Type 0} (driver : Driver S) where
  -- What follows the function, by its outcome; an error of the rollback is only logged.
  unfoldable pub finish : {A : Type 0} → Result A → Action S A
  finish (ok a) s = (annotate "transactor: commit transaction: %w" driver.commit >> pure a) s
  finish (err e) s = (err (wrapped "transactor: run atomic: %w" e), (driver.rollback s).1)
  finish panic s = (panic, (driver.rollback s).1)

  -- `RunAtomic`; `nested` tells whether the context carries a transaction.
  unfoldable pub run_atomic : Bool → {A : Type 0} → Action S A → Action S A
  unfolding finish
  run_atomic nested fn = if nested then fn else do
    annotate "transactor: begin transaction: %w" driver.begin
    λ s. let (r, s') = fn s in finish r s'

  abbrev pub postgres_transactor : Bool → Transactor S
  postgres_transactor nested = record { run_atomic = λ fn. run_atomic nested fn }

  -- What others see of the store: a transaction that is not committed leaves it as it is.
  pub record IsDurable {D : Type 0} (durable : S → D) : Type 0 where
    pub begin_keeps : (s : S) → durable (driver.begin s).1 ≡ durable s
    pub rollback_keeps : (s : S) → durable (driver.rollback s).1 ≡ durable s
    pub commit_keeps :
        (s : S) → ((driver.commit s).0 ≡ ok tt) ⊎ (durable (driver.commit s).1 ≡ durable s)

  module _ {D : Type 0} (durable : S → D) (law : IsDurable durable) where
    finish-durable :
        {A : Type 0} (r : Result A) (s : S)
        → ((a : A) × (r ≡ ok a)
            × ((driver.commit s).0 ≡ ok tt)
            × (finish r s ≡ (ok a, (driver.commit s).1)))
          ⊎ (IsFailure (finish r s).0 × (durable (finish r s).1 ≡ durable s))
    unfolding finish
    finish-durable (ok a) s = elim (Result-cases (driver.commit s).0) [
      | inl (u, done) ↦ inl (a, refl, done, ground arith)
      | inr (inl (e, failed)) ↦ elim (law.commit_keeps s) [
        | inl done ↦ absurd (ground arith)
        | inr kept ↦ inr (λ b h. ground arith, ground arith)
      ]
      | inr (inr panicked) ↦ elim (law.commit_keeps s) [
        | inl done ↦ absurd (ground arith)
        | inr kept ↦ inr (λ b h. ground arith, ground arith)
      ]
    ]
    finish-durable (err e) s = inr (λ b h. ground arith, law.rollback_keeps s)
    finish-durable panic s = inr (λ b h. ground arith, law.rollback_keeps s)

    -- All or nothing: a call that is not nested, of a function whose writes nobody else sees
    -- before the commit, returns the function's value after a commit, or fails and leaves what
    -- others see as it was.
    pub run_atomic-durable :
        {A : Type 0} (fn : Action S A) (s : S)
        → ((t : S) → durable (fn t).1 ≡ durable t)
        → let t = (fn (driver.begin s).1).1 in
          ((a : A) × ((driver.begin s).0 ≡ ok tt)
            × ((fn (driver.begin s).1).0 ≡ ok a)
            × ((driver.commit t).0 ≡ ok tt)
            × (run_atomic false fn s ≡ (ok a, (driver.commit t).1)))
          ⊎ (IsFailure (run_atomic false fn s).0 × (durable (run_atomic false fn s).1 ≡ durable s))
    unfolding run_atomic
    run_atomic-durable fn s hidden =
        let t = (driver.begin s).1 in
        let begun = law.begin_keeps s in
        elim (Result-cases (driver.begin s).0) [
          | inr (inl (e, failed)) ↦ inr (λ b h. ground arith, ground arith)
          | inr (inr panicked) ↦ inr (λ b h. ground arith, ground arith)
          | inl (u, started) ↦
              let from_here : run_atomic false fn s ≡ finish (fn t).0 (fn t).1 = ground arith in
              elim (finish-durable (fn t).0 (fn t).1) [
                | inl (a, done, published, committed) ↦
                    inl (a, started, done, published, from_here ∙ committed)
                | inr (fails, kept) ↦ inr (
                  λ b h. fails b (sym (ap (λ p. p.0) from_here) ∙ h),
                  ap (λ p. durable p.1) from_here ∙ kept ∙ hidden t ∙ begun,
                )
              ]
        ]

  -- Whether a transaction is open: a begin that fails opens none, and a commit and a rollback end
  -- it, also when they fail.
  pub record IsClosing (is_open : S → Bool) : Type 0 where
    pub begin_opens :
        (s : S) → ((driver.begin s).0 ≡ ok tt) ⊎ (is_open (driver.begin s).1 ≡ is_open s)
    pub commit_closes : (s : S) → is_open (driver.commit s).1 ≡ false
    pub rollback_closes : (s : S) → is_open (driver.rollback s).1 ≡ false

  module _ (is_open : S → Bool) (law : IsClosing is_open) where
    finish_closes : {A : Type 0} (r : Result A) (s : S) → is_open (finish r s).1 ≡ false
    unfolding finish
    finish_closes (ok a) s = elim (Result-cases (driver.commit s).0) [
      | inl (u, done) ↦ ground (arith, law.commit_closes s)
      | inr (inl (e, failed)) ↦ ground (arith, law.commit_closes s)
      | inr (inr panicked) ↦ ground (arith, law.commit_closes s)
    ]
    finish_closes (err e) s = law.rollback_closes s
    finish_closes panic s = law.rollback_closes s

    -- However the function ends, by a value, an error or a panic, its transaction does not stay
    -- open.
    pub run_atomic-closes :
        {A : Type 0} (fn : Action S A) (s : S)
        → is_open s ≡ false
        → is_open (run_atomic false fn s).1 ≡ false
    unfolding run_atomic
    run_atomic-closes fn s closed = elim (Result-cases (driver.begin s).0) [
      | inl (u, started) ↦
          let t = (driver.begin s).1 in
          let from_here : run_atomic false fn s ≡ finish (fn t).0 (fn t).1 = ground arith in
          ap (λ p. is_open p.1) from_here ∙ finish_closes (fn t).0 (fn t).1
      | inr (inl (e, failed)) ↦ ground (arith, law.begin_opens s)
      | inr (inr panicked) ↦ ground (arith, law.begin_opens s)
    ]
