-- ===== src/Validate.antt =====
-- internal/platform/validate: the rules, and the result that collects their violations.
pub mod Collects
pub mod Email
pub mod Rules
use Prim.Native.Char.{code}
use Prim.Native.String.{count}
use pfm_go.Common.{
  ℕ, suc, String, Bool, true, false, not, ◌||◌, Option, none, some, List, [], ◌∷◌, ◌++◌, ltb,
  nat_eqb, ◌==◌, string_eq, if◌then◌else◌,
}
use pfm_go.Common.Int.{ℤ, pos, ltb_ℤ, leb_ℤ, eqb_ℤ}
use pfm_go.Effect.{Action, pure, fail}
use pfm_go.Message.{Reason, FieldName, Violation, Error, validation}

-- The dynamic value of an argument of type `any`.
pub data Value : Type 0 where
  text : String → Value
  int : ℤ → Value
  int64 : ℤ → Value
  nil other : Value

-- A rule returns its message, or none where the source returns the empty string.
abbrev pub Rule : Type 0
Rule = Value → Option Reason

abbrev when : Bool → Reason → Option Reason
when c m = if c then some m else none

unfoldable pub required : Rule
required (text s) = when (s == "") Reason.required
required (int v) = when (eqb_ℤ v (pos 0)) Reason.required
required (int64 v) = when (eqb_ℤ v (pos 0)) Reason.required
required nil = some Reason.required
required other = none

-- `len([]rune(s))` is the number of characters.
unfoldable pub min_len : ℕ → Rule
min_len n (text s) = when (ltb (count s) n) (Reason.min_len n)
min_len n _ = none

unfoldable pub max_len : ℕ → Rule
max_len n (text s) = when (ltb n (count s)) (Reason.max_len n)
max_len n _ = none

unfoldable pub range : ℤ → ℤ → Rule
range min max (int v) = when (ltb_ℤ v min || ltb_ℤ max v) (Reason.range min max)
range min max (int64 v) = when (ltb_ℤ v min || ltb_ℤ max v) (Reason.range min max)
range min max _ = none

-- The loop of `OneOf` over the allowed values.
pub is_allowed : List String → String → Bool
is_allowed [] s = false
is_allowed (a ∷ allowed) s = s == a || is_allowed allowed s

unfoldable pub one_of : List String → Rule
unfolding is_allowed
one_of allowed (text s) = if is_allowed allowed s then none else some (Reason.one_of allowed)
one_of allowed _ = none

unfoldable pub positive : Rule
positive (int v) = when (leb_ℤ v (pos 0)) Reason.positive
positive (int64 v) = when (leb_ℤ v (pos 0)) Reason.positive
positive _ = none

unfoldable pub non_negative : Rule
non_negative (int v) = when (ltb_ℤ v (pos 0)) Reason.non_negative
non_negative (int64 v) = when (ltb_ℤ v (pos 0)) Reason.non_negative
non_negative _ = none

-- The code points of a text.
abbrev pub runes : String → List ℕ
runes String.[] = []
runes (String.◌∷◌ c s) = code c ∷ runes s

-- `strings.LastIndex`, counted in characters, and the text behind that place. The source counts
-- bytes; it only asks whether the place is the first, and takes what follows.
pub split_last : ℕ → List ℕ → Option (List ℕ × List ℕ)
split_last c [] = none
split_last c (x ∷ xs) = elim (split_last c xs) [
  | some (before, after) ↦ some (x ∷ before, after)
  | none ↦ if nat_eqb x c then some ([], xs) else none
]

-- `strings.Contains` for a text of one character
pub has : ℕ → List ℕ → Bool
has c [] = false
has c (x ∷ xs) = nat_eqb x c || has c xs

-- `domain == ""`
abbrev is_empty : List ℕ → Bool
is_empty [] = true
is_empty (_ ∷ _) = false

-- The two parts of an address, by the last `@`.
pub email_parts : Option (List ℕ × List ℕ) → Option Reason
unfolding has
email_parts none = some Reason.email
email_parts (some ([], domain)) = some Reason.email
email_parts (some (_ ∷ _, domain)) =
    if is_empty domain || not (has b'.' domain) then some Reason.email else none

unfoldable pub email : Rule
unfolding split_last email_parts
email (text s) = email_parts (split_last b'@' (runes s))
email _ = none

-- `Result` is the list of its violations; `NewResult` is the empty one.
abbrev pub Violations : Type 0
Violations = List Violation

abbrev pub new_result : Violations
new_result = []

-- `append(r.violations, Violation{…})`, if the rule has a message
pub record_violation : FieldName → Option Reason → Violations → Violations
record_violation name none r = r
record_violation name (some m) r = r ++ record { field = name; message = m } ∷ []

-- `r.Field(name, value, rules...)`
unfoldable pub field : FieldName → Value → List Rule → Violations → Violations
unfolding record_violation
field name v [] r = r
field name v (rule ∷ rules) r = field name v rules (record_violation name (rule v) r)

unfoldable pub has_violations : Violations → Bool
has_violations [] = false
has_violations (_ ∷ _) = true

-- `r.Error()`
unfoldable pub error : Violations → Option Error
unfolding has_violations
error r = if has_violations r then some (validation r) else none

-- `if err := r.Error(); err != nil { return …, err }`
unfoldable pub check : {S : Type 0} → Violations → Action S (Unit {0})
unfolding error
check r = elim (error r) [ none ↦ pure tt | some e ↦ fail e ]
