-- ===== src/Validate/Email.antt =====
-- What the rule `Email` accepts.
use pfm_go.Common.{
  ℕ, String, true, false, ◌≡◌, ◌≢◌, refl, ◌↔◌, Option, none, some, List, [], ◌∷◌, ◌++◌, arith,
}
use pfm_go.Validate.{text, runes, split_last, has, email_parts, email}

-- An address: a part before an `@` that is not empty, and behind it a domain with no `@` and
-- with a dot.
abbrev pub IsAddress : List ℕ → Type 0
IsAddress s =
    (before : List ℕ) × (domain : List ℕ) × (s ≡ before ++ b'@' ∷ domain)
    × (before ≢ [])
    × (has b'@' domain ≡ false)
    × (has b'.' domain ≡ true)

split_last-none : (c : ℕ) (s : List ℕ) → split_last c s ≡ none → has c s ≡ false
unfolding split_last has
split_last-none c [] h = refl
split_last-none c (x ∷ s) h = ground (arith, split_last-none c s)

split_last-some :
    (c : ℕ) (s before after : List ℕ)
    → split_last c s ≡ some (before, after)
    → (s ≡ before ++ c ∷ after) × (has c after ≡ false)
unfolding split_last has
split_last-some c [] before after h = cc
split_last-some c (x ∷ s) [] after h = ground (arith, split_last-none c s)
split_last-some c (x ∷ s) (y ∷ before) after h = ground (arith, split_last-some c s before after)

split_last_of_lacks : (c : ℕ) (s : List ℕ) → has c s ≡ false → split_last c s ≡ none
unfolding split_last has
split_last_of_lacks c [] h = refl
split_last_of_lacks c (x ∷ s) h = ground (arith, split_last_of_lacks c s)

split_last-append :
    (c : ℕ) (before after : List ℕ)
    → has c after ≡ false
    → split_last c (before ++ c ∷ after) ≡ some (before, after)
unfolding split_last has
split_last-append c [] after h = ground (arith, split_last_of_lacks c after h)
split_last-append c (x ∷ before) after h = ground (arith, split_last-append c before after)

email_parts-none :
    (before domain : List ℕ)
    → email_parts (some (before, domain)) ≡ none
    → (before ≢ []) × (has b'.' domain ≡ true)
unfolding email_parts
email_parts-none [] domain h = cc
email_parts-none (x ∷ before) [] h = cc
email_parts-none (x ∷ before) (y ∷ domain) h = (λ e. cc, ground arith)

email_parts-some :
    (before domain : List ℕ)
    → before ≢ []
    → has b'.' domain ≡ true
    → email_parts (some (before, domain)) ≡ none
unfolding email_parts
email_parts-some [] domain p h = absurd (p refl)
email_parts-some (x ∷ before) [] p h = cc
email_parts-some (x ∷ before) (y ∷ domain) p h = ground arith

email_parts_sound :
    (s : List ℕ) (o : Option (List ℕ × List ℕ))
    → split_last b'@' s ≡ o
    → email_parts o ≡ none
    → IsAddress s
unfolding email_parts
email_parts_sound s none e h = cc
email_parts_sound s (some (before, domain)) e h =
    let (shape, last) = split_last-some b'@' s before domain e in
    let (nonempty, dot) = email_parts-none before domain h in
    (before, domain, shape, nonempty, last, dot)

email_sound : (s : String) → email (text s) ≡ none → IsAddress (runes s)
unfolding email
email_sound s h = email_parts_sound (runes s) _ refl h

email_complete : (s : String) → IsAddress (runes s) → email (text s) ≡ none
unfolding email
email_complete s (before, domain, shape, nonempty, last, dot) =
    rw (shape, split_last-append b'@' before domain last)
      (email_parts-some before domain nonempty dot)

-- The rule `Email` accepts a text exactly when it is an address: a non-empty part, an `@`, and
-- behind the last `@` a domain that has a dot. The first part may hold further `@` characters.
pub email-IsAddress : (s : String) → (email (text s) ≡ none) ↔ IsAddress (runes s)
email-IsAddress s = (email_sound s, email_complete s)
