-- ===== src/Http/Bearer/Tokens.antt =====
-- internal/middleware/authn.go: which headers carry a token.
use Prim.Native.Char.{code}
use Prim.Native.String
use Prim.Native.String.append
use pfm_go.Common.{
  String, false, ◌≡◌, ◌≢◌, refl, ap, ◌∙◌, ◌↔◌, none, some, nat_eqb_iff, ==_iff, string_eq, arith,
  Option-cases, inl, inr,
}
use text.Mathlib.TextEquality.{Char-path}
use text.Mathlib.TextLemmas.{nil≢cons}
use pfm_go.Http.{Request}
use pfm_go.Http.Bearer.{bearer_prefix, strip_prefix, has_blank, extract_bearer}

strip_prefix-append :
    (prefix h t : String) → (strip_prefix prefix h ≡ some t) ↔ (h ≡ String.◌++◌ prefix t)
unfolding strip_prefix
strip_prefix-append String.[] h t =
    let e : String.◌++◌ String.[] t ≡ t = append.nil t in ground arith
strip_prefix-append (String.◌∷◌ c prefix) String.[] t =
    let e : String.◌++◌ (String.◌∷◌ c prefix) t ≡ String.◌∷◌ c (String.◌++◌ prefix t) =
      append.cons c prefix t in
    (λ found. cc, λ h. absurd (nil≢cons (h ∙ e)))
strip_prefix-append (String.◌∷◌ c prefix) (String.◌∷◌ d h) t =
    let ih = strip_prefix-append prefix h t in
    let e : String.◌++◌ (String.◌∷◌ c prefix) t ≡ String.◌∷◌ c (String.◌++◌ prefix t) =
      append.cons c prefix t in
    ground (arith, Char-path c d, nat_eqb_iff (code c) (code d))

strip_prefix-empty : strip_prefix bearer_prefix "" ≡ none
unfolding strip_prefix
strip_prefix-empty = refl

-- What stands behind the scheme: a text that is not empty and has neither spaces nor tabs.
abbrev pub IsToken : String → Type 0
IsToken t = (t ≢ "") × (has_blank t ≡ false)

-- A request carries a token exactly if its header `Authorization` is the word `Bearer`, one space
-- and that token, which is not empty and has neither spaces nor tabs.
pub extract_bearer_iff :
    (r : Request) (t : String)
    → (extract_bearer r ≡ some t)
      ↔ ((r.header "Authorization" ≡ String.◌++◌ "Bearer " t) × IsToken t)
unfolding extract_bearer
extract_bearer_iff r t =
    let h = r.header "Authorization" in
    let not_empty : h ≡ "" → strip_prefix bearer_prefix h ≡ none =
      λ e. ap (strip_prefix bearer_prefix) e ∙ strip_prefix-empty in
    elim (Option-cases (strip_prefix bearer_prefix h)) [
      | inl missing ↦ ground (arith, strip_prefix-append bearer_prefix h t)
      | inr (u, found) ↦
          ground (arith, strip_prefix-append bearer_prefix h t, not_empty, ==_iff h "", ==_iff u "")
    ]
