-- ===== src/Ledger/Logic/Guards.antt =====
-- What `LedgerLogic.PostTransaction` lets through to the repository, for every repository.
use pfm_go.Common.{
  ℕ, suc, ◌<◌, ◌≡◌, ◌≢◌, refl, ◌↔◌, ◌⊎◌, inl, inr, List, [], ◌∷◌, length, All, arith, true,
}
use pfm_go.Common.Int.{pos, ◌≤ℤ◌}
use pfm_go.Common.Int64.{bits}
use pfm_go.Types.{Uuid, entry_type_debit, entry_type_credit}
use pfm_go.Message.{Violation, named, indexed, validation}
use pfm_go.Effect.{Result, ok, err, annotate}
use pfm_go.Validate.{text, int, int64, required, positive, field, new_result, Violations}
use pfm_go.Validate.Collects.{field_single, check_pass, check_fail, nil-cases}
use pfm_go.Validate.Rules.{required_text, positive_int, positive_int64}
use pfm_go.Database.{Transactor}
use pfm_go.Ledger.{EntryInput, PostTransactionInput, Repository}
use pfm_go.Ledger.Logic.{check_input, check_amounts, is_unbalanced, post_transaction, unbalanced}
use pfm_go.Ledger.Logic.Balance.{total, is_unbalanced_iff}

abbrev pub IsPositiveEntry : EntryInput → Type 0
IsPositiveEntry e = pos 1 ≤ℤ e.amount

-- The input is complete: a description, entries, and positive amounts.
abbrev pub IsComplete : PostTransactionInput → Type 0
IsComplete input =
    (input.description ≢ "") × (0 < length input.entries) × All IsPositiveEntry input.entries

-- The true sums of debits and credits agree modulo 2 ^ 64.
abbrev pub IsBalanced : PostTransactionInput → Type 0
IsBalanced input =
    bits (total entry_type_debit input.entries) ≡ bits (total entry_type_credit input.entries)

-- The outcome of the checks: they pass, or they end the call with violations.
abbrev Rejects : {S : Type 0} → S → Result (Unit {0}) × S → Type 0
Rejects s r = (vs : List Violation) × (r ≡ (err (validation vs), s))

abbrev HasDescriptionAndEntries : PostTransactionInput → Type 0
HasDescriptionAndEntries input = (input.description ≢ "") × (0 < length input.entries)

abbrev input_result : PostTransactionInput → Violations
input_result input =
    field (named "entries") (int (pos (length input.entries))) (positive ∷ [])
      (field (named "description") (text input.description) (required ∷ []) new_result)

input_violations :
    (input : PostTransactionInput) → (input_result input ≡ []) ↔ HasDescriptionAndEntries input
input_violations input =
    let entry_rule = positive_int (pos (length input.entries)) in
    let (to, from) = field_single (named "entries") (int (pos (length input.entries))) positive _ in
    let (to', from') = field_single (named "description") (text input.description) required [] in
    let described = required_text input.description in
    (
      λ h. (described.0 (to' (to h).1).0, omega (arith, entry_rule.0 (to h).0)),
      λ (d, n). from (entry_rule.1 (omega arith), from' (described.1 d, refl)),
    )

abbrev amount_result : ℕ → EntryInput → Violations
amount_result i e =
    field (indexed "entries[%d].amount" i) (int64 e.amount) (positive ∷ []) new_result

amount_violations : (i : ℕ) (e : EntryInput) → (amount_result i e ≡ []) ↔ IsPositiveEntry e
amount_violations i e =
    let (to, from) =
      field_single (indexed "entries[%d].amount" i) (int64 e.amount) positive new_result in
    let amount = positive_int64 e.amount in (λ h. amount.0 (to h).0, λ h. from (amount.1 h, refl))

check_amounts_positive :
    {S : Type 0} (i : ℕ) (es : List EntryInput) (s : S)
    → All IsPositiveEntry es
    → check_amounts i es s ≡ (ok tt, s)
unfolding check_amounts
check_amounts_positive i [] s h = refl
check_amounts_positive i (e ∷ es) s (p, h) =
    let passes = check_pass _ s ((amount_violations i e).1 p) in
    ground (arith, check_amounts_positive (suc i) es s h)

check_amounts_not_positive :
    {S : Type 0} (i : ℕ) (es : List EntryInput) (s : S)
    → ¬ All IsPositiveEntry es
    → Rejects s (check_amounts i es s)
unfolding check_amounts
check_amounts_not_positive i [] s h = absurd (h tt)
check_amounts_not_positive i (e ∷ es) s h = elim (nil-cases (amount_result i e)) [
  | inl passes ↦
      let positive_entry = (amount_violations i e).0 passes in
      let (vs, refused) =
        check_amounts_not_positive (suc i) es s (λ rest. h (positive_entry, rest)) in
      let going_on = check_pass _ s passes in (vs, ground arith)
  | inr violated ↦ let stopped = check_fail _ s violated in (amount_result i e, ground arith)
]

-- The checks before the sums pass exactly for a complete input.
check_input_complete :
    {S : Type 0} (input : PostTransactionInput) (s : S)
    → HasDescriptionAndEntries input
    → check_input input s ≡ (ok tt, s)
unfolding check_input
check_input_complete input s h = check_pass _ s ((input_violations input).1 h)

check_input-cases :
    {S : Type 0} (input : PostTransactionInput) (s : S)
    → HasDescriptionAndEntries input ⊎ Rejects s (check_input input s)
unfolding check_input
check_input-cases input s = elim (nil-cases (input_result input)) [
  | inl passes ↦ inl ((input_violations input).0 passes)
  | inr violated ↦ inr (_, check_fail _ s violated)
]

module _ {S : Type 0} (repo : Repository S) (tx : Transactor S) where
  -- A complete and balanced input reaches the repository, in one transaction, and what that
  -- answers is the result, an error with the operation's context.
  pub post_transaction_accepts :
      (household_id : Uuid) (input : PostTransactionInput) (caller_id : Uuid) (s : S)
      → IsComplete input
      → IsBalanced input
      → post_transaction repo tx household_id input caller_id s
        ≡ annotate "ledger logic: post transaction: %w"
            (tx.run_atomic (repo.post_transaction household_id input caller_id))
            s
  unfolding post_transaction
  post_transaction_accepts household_id input caller_id s (d, n, amounts) balanced =
      let passes = (is_unbalanced_iff input.entries).1 balanced in
      ground (
        arith,
        check_input_complete input s (d, n),
        check_amounts_positive 0 input.entries s amounts,
      )

  -- A complete input whose sums differ is refused as unbalanced, and the store is untouched.
  pub post_transaction_refuses_unbalanced :
      (household_id : Uuid) (input : PostTransactionInput) (caller_id : Uuid) (s : S)
      → IsComplete input
      → ¬ IsBalanced input
      → post_transaction repo tx household_id input caller_id s
        ≡ (err (unbalanced "ledger logic: post transaction: %w"), s)
  unfolding post_transaction
  post_transaction_refuses_unbalanced household_id input caller_id s (d, n, amounts) differ =
      let refused : is_unbalanced input.entries ≡ true =
        ground (arith, is_unbalanced_iff input.entries) in
      ground (
        arith,
        check_input_complete input s (d, n),
        check_amounts_positive 0 input.entries s amounts,
      )

  -- An input that is not complete is refused with violations, and the store is untouched.
  pub post_transaction_refuses_incomplete :
      (household_id : Uuid) (input : PostTransactionInput) (caller_id : Uuid) (s : S)
      → ¬ IsComplete input
      → (vs : List Violation) × (post_transaction repo tx household_id input caller_id s
          ≡ (err (validation vs), s))
  unfolding post_transaction
  post_transaction_refuses_incomplete household_id input caller_id s h =
      elim (check_input-cases input s) [
        | inl (d, n) ↦
            let (vs, e) =
              check_amounts_not_positive 0 input.entries s (λ amounts. h (d, n, amounts)) in
            (vs, ground (arith, check_input_complete input s (d, n)))
        | inr (vs, e) ↦ (vs, ground arith)
      ]
