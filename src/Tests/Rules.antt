-- ===== src/Tests/Rules.antt =====
-- internal/platform/validate at concrete inputs.
use pfm_go.Common.{◌≡◌, refl, ◌↔◌, none}
use pfm_go.Validate.{text, runes, email}
use pfm_go.Validate.Email.{IsAddress, email-IsAddress}

email-IsAddress_example :
    (email (text "ana@example.com") ≡ none) ↔ IsAddress (runes "ana@example.com")
email-IsAddress_example = email-IsAddress "ana@example.com"

-- Two `@` are accepted.
two_ats : email (text "a@b@example.com") ≡ none
unfolding email
two_ats = refl
