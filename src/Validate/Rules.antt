-- ===== src/Validate/Rules.antt =====
-- What each rule accepts, in terms of the value.
use Prim.Native.String.{count}
use pfm_go.Common.{
  ℕ, ◌≤◌, String, true, ◌≡◌, refl, ◌≢◌, ◌↔◌, ◌⊎◌, inl, inr, none, List, [], ◌∷◌, ◌==◌, string_eq,
  ==_iff, Bool-cases, arith,
}
use pfm_go.Common.Int.{ℤ, pos, ◌≤ℤ◌}
use pfm_go.Validate.{
  text, int, int64, required, min_len, max_len, range, one_of, is_allowed, positive, non_negative,
  field, new_result,
}
use pfm_go.Message.{FieldName}
use pfm_go.Validate.Collects.{field-nil}

pub required_text : (s : String) → (required (text s) ≡ none) ↔ (s ≢ "")
unfolding required
required_text s = ground (arith, ==_iff s "")

pub positive_int : (v : ℤ) → (positive (int v) ≡ none) ↔ (pos 1 ≤ℤ v)
unfolding positive
positive_int v = ground arith

pub positive_int64 : (v : ℤ) → (positive (int64 v) ≡ none) ↔ (pos 1 ≤ℤ v)
unfolding positive
positive_int64 v = ground arith

pub non_negative_int64 : (v : ℤ) → (non_negative (int64 v) ≡ none) ↔ (pos 0 ≤ℤ v)
unfolding non_negative
non_negative_int64 v = ground arith

pub range_int : (min max v : ℤ) → (range min max (int v) ≡ none) ↔ ((min ≤ℤ v) × (v ≤ℤ max))
unfolding range
range_int min max v = ground arith

pub min_len_text : (n : ℕ) (s : String) → (min_len n (text s) ≡ none) ↔ (n ≤ count s)
unfolding min_len
min_len_text n s = ground arith

pub max_len_text : (n : ℕ) (s : String) → (max_len n (text s) ≡ none) ↔ (count s ≤ n)
unfolding max_len
max_len_text n s = ground arith

-- The text is one of the list.
abbrev pub IsOneOf : List String → String → Type 0
IsOneOf [] s = ⊥
IsOneOf (a ∷ allowed) s = (s ≡ a) ⊎ IsOneOf allowed s

is_allowed_iff :
    (allowed : List String) (s : String) → (is_allowed allowed s ≡ true) ↔ IsOneOf allowed s
unfolding is_allowed
is_allowed_iff [] s = (λ h. cc, λ h. absurd h)
is_allowed_iff (a ∷ allowed) s =
    let (to, from) = is_allowed_iff allowed s in
    let (eq_of, of_eq) = ==_iff s a in
    elim (Bool-cases (s == a)) [
      | inl found ↦ (λ h. inl (eq_of found), λ h. rw found)
      | inr differs ↦ (
        λ h. inr (to (rw differs at h)),
        λ h. elim h [ inl e ↦ ground (arith, of_eq e) | inr later ↦ rw differs (from later) ],
      )
    ]

pub one_of_text :
    (allowed : List String) (s : String) → (one_of allowed (text s) ≡ none) ↔ IsOneOf allowed s
unfolding one_of
one_of_text allowed s =
    let (to, from) = is_allowed_iff allowed s in
    elim (Bool-cases (is_allowed allowed s)) [
      | inl yes_it_is ↦ (λ h. to yes_it_is, λ h. rw yes_it_is)
      | inr no_it_is_not ↦ (λ h. let e = rw no_it_is_not at h in cc, λ h. rw (from h))
    ]

-- What the rules of names ask for: 2 to 100 characters.
abbrev pub IsName : String → Type 0
IsName s = (2 ≤ count s) × (count s ≤ 100)

empty_count : (s : String) → s ≡ "" → count s ≡ 0
empty_count s e = rw e

-- A name passes the rules of household and account names exactly when it has from 2 to 100
-- characters.
field-IsName :
    (name : FieldName) (s : String)
    → (field name (text s) (required ∷ min_len 2 ∷ max_len 100 ∷ []) new_result ≡ []) ↔ IsName s
field-IsName name s =
    let (to, from) = field-nil name (text s) (required ∷ min_len 2 ∷ max_len 100 ∷ []) new_result in
    let least = min_len_text 2 s in
    let most = max_len_text 100 s in
    (
      λ h. let rules = (to h).1 in (least.0 rules.1.0, most.0 rules.1.1.0),
      λ h. from (
        refl,
        (
          (required_text s).1 (λ e. absurd (omega (arith, empty_count s e, h.0))),
          (least.1 h.0, (most.1 h.1, tt)),
        ),
      ),
    )
