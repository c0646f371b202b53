-- ===== src/Http/Bearer.antt =====
-- internal/middleware/authn.go: the token of the header `Authorization`.
pub mod Tokens
use Prim.Native.Char.{code}
use Prim.Native.String
use pfm_go.Common.{
  ℕ, String, Bool, true, false, ◌||◌, Option, none, some, nat_eqb, ◌==◌, string_eq, if◌then◌else◌,
}
use pfm_go.Types.{Uuid}
use pfm_go.Message.{
  Sentinel, is, msg_authn_missing_token, msg_authn_expired_token, msg_authn_invalid_token,
}
use pfm_go.Effect.{Action, pure, attempt}
use pfm_go.Http.{Request, with_user_id, with_context}
use pfm_go.Http.Wire.{Payload}
use pfm_go.Http.Response.{Response, Handler, write_json}

abbrev pub bearer_prefix : String
bearer_prefix = "Bearer "

-- `strings.HasPrefix(h, prefix)` and `h[len(prefix):]`: what follows the prefix, if it is there
unfoldable pub strip_prefix : String → String → Option String
strip_prefix String.[] h = some h
strip_prefix (String.◌∷◌ c prefix) String.[] = none
strip_prefix (String.◌∷◌ c prefix) (String.◌∷◌ d h) =
    let rest = strip_prefix prefix h in if nat_eqb (code c) (code d) then rest else none

-- `strings.ContainsAny(token, " \t")`
unfoldable pub has_blank : String → Bool
has_blank String.[] = false
has_blank (String.◌∷◌ c s) =
    let behind = has_blank s in nat_eqb (code c) 32 || nat_eqb (code c) 9 || behind

unfoldable pub extract_bearer : Request → Option String
unfolding strip_prefix has_blank
extract_bearer r =
    let h = r.header "Authorization" in
    if h == "" then none else (elim (strip_prefix bearer_prefix h) [
      | none ↦ none
      | some token ↦ if token == "" || has_blank token then none else some token
    ])

-- `writeJSON` of the middleware
unfoldable pub refusal : ℕ → String → Response
unfolding write_json
refusal status msg = write_json status (Payload.error_message msg)

-- `tokenValidator` is the function `validate`.
unfoldable pub authn : {S : Type 0} → (String → Action S Uuid) → Handler S → Handler S
unfolding extract_bearer refusal
authn validate next r = elim (extract_bearer r) [
  | none ↦ pure (refusal 401 msg_authn_missing_token)
  | some token ↦
      attempt (validate token)
        (λ e.
          if is e Sentinel.token_expired
          then pure (refusal 401 msg_authn_expired_token)
          else pure (refusal 401 msg_authn_invalid_token))
        λ user_id. next (with_context r (with_user_id r.ctx user_id))
]
