-- ===== src/CreditCard/Logic/Checks.antt =====
-- internal/domain/creditcard/settings_logic.go: a call that writes has passed its checks.
use pfm_go.Common.{◌≡◌, ap, ◌∙◌, ◌==◌, ==_iff, string_eq, ◌⊎◌, inl, inr, Bool-cases, [], ◌∷◌, arith}
use pfm_go.Common.Int.{ℤ, pos, ◌≤ℤ◌}
use pfm_go.Types.{Uuid, account_type_credit_card}
use pfm_go.Effect.{ok, Result-cases}
use pfm_go.Message.{FieldName, named}
use pfm_go.Validate.{Violations, int, int64, range, non_negative, field, new_result}
use pfm_go.Validate.Collects.{field_single, check_pass, check_fail, nil-cases}
use pfm_go.Validate.Rules.{range_int, non_negative_int64}
use pfm_go.CreditCard.{
  CreateInput, UpdateClosingDayInput, UpdateDueDayInput, UpdateLimitInput, Repository,
  AccountTypeFinder,
}
use pfm_go.CreditCard.Logic.{
  day_and_limit_result, day_result, limit_result, update_closing_day, update_due_day, update_limit,
  create, delete,
}

-- A day of a month.
abbrev pub IsDay : ℤ → Type 0
IsDay d = (pos 1 ≤ℤ d) × (d ≤ℤ pos 31)

-- A limit that is not negative.
abbrev pub IsLimit : ℤ → Type 0
IsLimit n = pos 0 ≤ℤ n

-- The days and the limit of an input are in range.
abbrev pub IsInRange : CreateInput → Type 0
IsInRange input = IsDay input.closing_day × IsDay input.due_day × IsLimit input.limit_amount

field-IsDay :
    (name : FieldName) (d : ℤ) (r : Violations)
    → field name (int d) (range (pos 1) (pos 31) ∷ []) r ≡ []
    → IsDay d × (r ≡ [])
field-IsDay name d r h =
    let (passed, before) = (field_single name (int d) (range (pos 1) (pos 31)) r).0 h in
    ((range_int (pos 1) (pos 31) d).0 passed, before)

field-IsLimit :
    (name : FieldName) (n : ℤ) (r : Violations)
    → field name (int64 n) (non_negative ∷ []) r ≡ []
    → IsLimit n × (r ≡ [])
field-IsLimit name n r h =
    let (passed, before) = (field_single name (int64 n) non_negative r).0 h in
    ((non_negative_int64 n).0 passed, before)

module _ {S : Type 0} (repo : Repository S) (s : S) where
  pub update_closing_day-cases :
      (id : Uuid) (input : UpdateClosingDayInput) (v : ℤ) (caller_id : Uuid)
      → ((update_closing_day repo id input v caller_id s).1 ≡ s)
        ⊎ (IsDay input.closing_day
            × ((update_closing_day repo id input v caller_id s).1
                ≡ (repo.update_closing_day id input v caller_id s).1))
  unfolding update_closing_day
  update_closing_day-cases id input v caller_id =
      elim (nil-cases (day_result "closing_day" input.closing_day)) [
        | inr violated ↦ let stop = check_fail _ s violated in inl (ground arith)
        | inl passes ↦
            let go = check_pass _ s passes in
            inr (
              (field-IsDay (named "closing_day") input.closing_day new_result passes).0,
              ground arith,
            )
      ]

  pub update_due_day-cases :
      (id : Uuid) (input : UpdateDueDayInput) (v : ℤ) (caller_id : Uuid)
      → ((update_due_day repo id input v caller_id s).1 ≡ s)
        ⊎ (IsDay input.due_day
            × ((update_due_day repo id input v caller_id s).1
                ≡ (repo.update_due_day id input v caller_id s).1))
  unfolding update_due_day
  update_due_day-cases id input v caller_id =
      elim (nil-cases (day_result "due_day" input.due_day)) [
        | inr violated ↦ let stop = check_fail _ s violated in inl (ground arith)
        | inl passes ↦
            let go = check_pass _ s passes in
            inr ((field-IsDay (named "due_day") input.due_day new_result passes).0, ground arith)
      ]

  pub update_limit-cases :
      (id : Uuid) (input : UpdateLimitInput) (v : ℤ) (caller_id : Uuid)
      → ((update_limit repo id input v caller_id s).1 ≡ s)
        ⊎ (IsLimit input.limit_amount
            × ((update_limit repo id input v caller_id s).1
                ≡ (repo.update_limit id input v caller_id s).1))
  unfolding update_limit
  update_limit-cases id input v caller_id = elim (nil-cases (limit_result input.limit_amount)) [
    | inr violated ↦ let stop = check_fail _ s violated in inl (ground arith)
    | inl passes ↦
        let go = check_pass _ s passes in
        inr (
          (field-IsLimit (named "limit_amount") input.limit_amount new_result passes).0,
          ground arith,
        )
  ]

  pub delete-state :
      (id caller_id : Uuid) → (delete repo id caller_id s).1 ≡ (repo.delete id caller_id s).1
  unfolding delete
  delete-state id caller_id = ground arith

  -- The account is found to be a credit card, by a finder that leaves the store as it is.
  pub create-cases :
      (accounts : AccountTypeFinder S) (id : Uuid) (input : CreateInput) (caller_id : Uuid)
      → (accounts.find_account_type id s).1 ≡ s
      → ((create repo accounts id input caller_id s).1 ≡ s)
        ⊎ (((accounts.find_account_type id s).0 ≡ ok account_type_credit_card)
            × IsInRange input
            × ((create repo accounts id input caller_id s).1
                ≡ (repo.create id input caller_id s).1))
  unfolding create
  create-cases accounts id input caller_id reads =
      elim (nil-cases (day_and_limit_result input.closing_day input.due_day input.limit_amount)) [
        | inr violated ↦ let stop = check_fail _ s violated in inl (ground arith)
        | inl passes ↦
            let go = check_pass _ s passes in
            let (limit, days) = field-IsLimit (named "limit_amount") input.limit_amount _ passes in
            let (due, first) = field-IsDay (named "due_day") input.due_day _ days in
            let (closing, _) =
              field-IsDay (named "closing_day") input.closing_day new_result first in
            elim (Result-cases (accounts.find_account_type id s).0) [
              | inr (inl (e, failed)) ↦ inl (ground arith)
              | inr (inr panicked) ↦ inl (ground arith)
              | inl (a, found) ↦ elim (Bool-cases (a == account_type_credit_card)) [
                | inr other ↦ inl (ground arith)
                | inl card ↦ inr (
                  found ∙ ap ok ((==_iff a account_type_credit_card).0 card),
                  (closing, due, limit),
                  ground arith,
                )
              ]
            ]
      ]
