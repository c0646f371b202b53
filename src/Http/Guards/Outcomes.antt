-- ===== src/Http/Guards/Outcomes.antt =====
-- internal/middleware: whom the middleware lets pass, and how it refuses the others.
use pfm_go.Common.{
  String, Bool, true, false, ◌≡◌, none, some, ◌==◌, string_eq, arith, if◌then◌else◌, Bool-cases,
  inl, inr, ◌&&◌, not,
}
use pfm_go.Types.{Uuid, role_admin}
use pfm_go.Message.{
  Error, Sentinel, is, msg_authn_missing_token, msg_authn_expired_token, msg_authn_invalid_token,
  msg_authz_forbidden, msg_authz_admin_required,
}
use pfm_go.Effect.{Action, ok, err}
use pfm_go.Household.{Membership}
use pfm_go.Http.{Request, with_user_id, with_household_id, with_role, with_context}
use pfm_go.Http.Wire.{Codec}
use pfm_go.Http.Response.{Response, Handler}
use pfm_go.Http.Bearer.{extract_bearer, refusal, authn}
use pfm_go.Http.Guards.{find_role, checked_guard}

-- The answer to a token that is not valid, by the error of the validation.
abbrev pub token_refusal : Error → Response
token_refusal e =
    refusal 401
      (if is e Sentinel.token_expired then msg_authn_expired_token else msg_authn_invalid_token)

module _ {S : Type 0} (validate : String → Action S Uuid) (next : Handler S) (r : Request)
    (s : S) where
  pub authn-missing :
      extract_bearer r ≡ none
      → authn validate next r s ≡ (ok (refusal 401 msg_authn_missing_token), s)
  unfolding authn
  authn-missing missing = ground arith

  pub authn-invalid :
      (token : String) (e : Error) (s' : S)
      → extract_bearer r ≡ some token
      → validate token s ≡ (err e, s')
      → authn validate next r s ≡ (ok (token_refusal e), s')
  unfolding authn
  authn-invalid token e s' there invalid = elim (Bool-cases (is e Sentinel.token_expired)) [
    | inl expired ↦ ground arith
    | inr other ↦ ground arith
  ]

  pub authn-next :
      (token : String) (user_id : Uuid) (s' : S)
      → extract_bearer r ≡ some token
      → validate token s ≡ (ok user_id, s')
      → authn validate next r s ≡ next (with_context r (with_user_id r.ctx user_id)) s'
  unfolding authn
  authn-next token user_id s' there valid = ground arith

module _ (codec : Codec) {S : Type 0} (find_membership : Uuid → Uuid → Action S Membership)
    (path_param : String) (require_admin : Bool) (next : Handler S) (r : Request) (s s' : S)
    (user_id household_id : Uuid)
    (named : codec.parse_uuid (r.path_value path_param) ≡ some household_id) where
  abbrev identified : Request
  identified = with_context r (with_user_id r.ctx user_id)

  pub checked_guard-outsider :
      (e : Error)
      → find_membership household_id user_id s ≡ (err e, s')
      → is e Sentinel.household_member_not_found ≡ true
      → checked_guard codec (find_role find_membership) path_param require_admin next identified s
        ≡ (ok (refusal 403 msg_authz_forbidden), s')
  unfolding checked_guard find_role
  checked_guard-outsider e missing outsider = ground arith

  pub checked_guard-next :
      (m : Membership)
      → find_membership household_id user_id s ≡ (ok m, s')
      → (require_admin && not (m.role == role_admin)) ≡ false
      → checked_guard codec (find_role find_membership) path_param require_admin next identified s
        ≡ next
            (with_context identified
              (with_role (with_household_id identified.ctx household_id) m.role))
            s'
  unfolding checked_guard find_role
  checked_guard-next m member allowed = ground arith

  pub checked_guard-member :
      (m : Membership)
      → find_membership household_id user_id s ≡ (ok m, s')
      → (require_admin && not (m.role == role_admin)) ≡ true
      → checked_guard codec (find_role find_membership) path_param require_admin next identified s
        ≡ (ok (refusal 403 msg_authz_admin_required), s')
  unfolding checked_guard find_role
  checked_guard-member m member refused = ground arith
