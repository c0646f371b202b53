-- ===== src/Validate/Collects.antt =====
-- What `Result.Field` and `Result.Error` collect.
use pfm_go.Common.{
  ◌≡◌, ◌≢◌, refl, sym, ◌∙◌, ap₂, ◌↔◌, ◌⊎◌, inl, inr, Option, none, some, List, [], ◌∷◌, ◌++◌,
  append-nil, append_assoc, All, arith,
}
use pfm_go.Message.{Reason, FieldName, validation}
use pfm_go.Validate.{Value, Rule, Violations, record_violation, field, has_violations, error, check}
use pfm_go.Effect.{ok, err}

-- The violations of one field, in the order of its rules.
abbrev pub found : FieldName → Option Reason → Violations
found name none = []
found name (some m) = record { field = name; message = m } ∷ []

abbrev pub failures : FieldName → Value → List Rule → Violations
failures name v [] = []
failures name v (rule ∷ rules) = found name (rule v) ++ failures name v rules

record_violation_lem :
    (name : FieldName) (o : Option Reason) (r : Violations)
    → record_violation name o r ≡ r ++ found name o
unfolding record_violation
record_violation_lem name none r = sym (append-nil r)
record_violation_lem name (some m) r = refl

-- `Field` keeps what was collected before and appends the message of every failing rule, in the
-- order of the rules.
pub field-failures :
    (name : FieldName) (v : Value) (rules : List Rule) (r : Violations)
    → field name v rules r ≡ r ++ failures name v rules
unfolding field
field-failures name v [] r = sym (append-nil r)
field-failures name v (rule ∷ rules) r =
    rw (field-failures name v rules, record_violation_lem name (rule v) r, append_assoc)

abbrev pub Passes : Value → Rule → Type 0
Passes v rule = rule v ≡ none

pub failures-nil :
    (name : FieldName) (v : Value) (rules : List Rule)
    → (failures name v rules ≡ []) ↔ All (Passes v) rules
failures-nil name v [] = (λ _. tt, λ _. refl)
failures-nil name v (rule ∷ rules) =
    let ih = failures-nil name v rules in (λ h. ground (arith, ih.0), λ h. ground (arith, ih.1))

append-nil_split : (r s : Violations) → r ++ s ≡ [] → (r ≡ []) × (s ≡ [])
append-nil_split [] s h = (refl, h)
append-nil_split (x ∷ r) s h = cc

-- After a check the result is empty exactly when it was empty before and every rule passed.
pub field-nil :
    (name : FieldName) (v : Value) (rules : List Rule) (r : Violations)
    → (field name v rules r ≡ []) ↔ ((r ≡ []) × All (Passes v) rules)
field-nil name v rules r =
    let (to, from) = failures-nil name v rules in
    let e = field-failures name v rules r in
    (
      λ h. let (empty, no_failures) = append-nil_split r _ (sym e ∙ h) in (empty, to no_failures),
      λ h. e ∙ ap₂ ◌++◌ h.0 (from h.1),
    )

pub error-none : (r : Violations) → (error r ≡ none) ↔ (r ≡ [])
unfolding error has_violations
error-none [] = (λ _. refl, λ _. refl)
error-none (x ∷ r) = (λ h. cc, λ h. cc)

pub error-cases : (r : Violations) → r ≢ [] → error r ≡ some (validation r)
unfolding error has_violations
error-cases [] h = absurd (h refl)
error-cases (x ∷ r) h = refl

-- The result of a field with one rule.
pub field_single :
    (name : FieldName) (v : Value) (rule : Rule) (r : Violations)
    → (field name v (rule ∷ []) r ≡ []) ↔ ((rule v ≡ none) × (r ≡ []))
field_single name v rule r =
    let (to, from) = field-nil name v (rule ∷ []) r in
    (λ h. ((to h).1.0, (to h).0), λ h. from (h.1, (h.0, tt)))

-- A check that finds nothing goes on, and one that finds something ends the call; neither
-- touches the store.
pub check_pass : {S : Type 0} (r : Violations) (s : S) → r ≡ [] → check r s ≡ (ok tt, s)
unfolding check
check_pass [] s h = refl
check_pass (x ∷ r) s h = cc

pub check_fail :
    {S : Type 0} (r : Violations) (s : S) → r ≢ [] → check r s ≡ (err (validation r), s)
unfolding check
check_fail [] s h = absurd (h refl)
check_fail (x ∷ r) s h = refl

pub nil-cases : (r : Violations) → (r ≡ []) ⊎ (r ≢ [])
nil-cases [] = inl refl
nil-cases (x ∷ r) = inr (λ e. cc)
