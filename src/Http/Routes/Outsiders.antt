-- ===== src/Http/Routes/Outsiders.antt =====
-- internal/adapter/http/routes.go: who is refused before a service is called.
use pfm_go.Common.{
  String, true, false, ◌≡◌, ap, ◌∙◌, ◌⊎◌, inl, inr, none, some, All, All-map, ◌==◌, string_eq,
}
use pfm_go.Types.{Uuid, role_admin}
use pfm_go.Message.{
  Error, Sentinel, is, msg_authn_missing_token, msg_authz_forbidden, msg_authz_admin_required,
}
use pfm_go.Effect.{ok, err}
use pfm_go.Household.{Membership}
use pfm_go.Http.{Request}
use pfm_go.Http.Wire.{Codec}
use pfm_go.Http.Response.{Response, Handler}
use pfm_go.Http.Bearer.{extract_bearer, refusal, authn}
use pfm_go.Http.Guards.{household_guard, household_admin_guard}
use pfm_go.Http.Guards.Outcomes.{
  token_refusal, authn-missing, authn-invalid, authn-next, checked_guard-outsider,
  checked_guard-member,
}
use pfm_go.Http.Routes.{RouteDeps, register_routes, guarded, admin_guarded}
use pfm_go.Http.Routes.Scopes.{
  is_scoped, is_managing, is_public, member_only, admin_only, IsScoped, register_routes-IsScoped,
  register_routes-IsManaging, register_routes-IsPrivate,
}

module _ (codec : Codec) {S : Type 0} (d : RouteDeps S) (r : Request) (s : S) where
  -- The request has no valid token: the answer to it, and the state that the validation leaves.
  abbrev IsStranger : Response → S → Type 0
  IsStranger response s' =
      ((extract_bearer r ≡ none) × (response ≡ refusal 401 msg_authn_missing_token) × (s' ≡ s))
      ⊎ ((token : String) × (e : Error) × (extract_bearer r ≡ some token)
          × (d.validate token s ≡ (err e, s'))
          × (response ≡ token_refusal e))

  authn-stranger :
      (response : Response) (s' : S) (h : Handler S)
      → IsStranger response s'
      → authn d.validate h r s ≡ (ok response, s')
  authn-stranger response s' h (inl (missing, e, same)) =
      rw (e, same) (authn-missing d.validate h r s missing)
  authn-stranger response s' h (inr (token, error, there, invalid, e)) =
      rw e (authn-invalid d.validate h r s token error s' there invalid)

  -- A request without a token, or with one that does not validate, is refused by every route but
  -- the public ones with the status 401, by one text for a token that expired, one for any other
  -- invalid token and one for none; no service is called, the state is as the validation left it.
  pub strangers_are_refused :
      (response : Response) (s' : S)
      → IsStranger response s'
      → All
          (λ route. (is_public route.0 ≡ true) ⊎ (route.1 r s ≡ (ok response, s')))
          (register_routes codec d)
  strangers_are_refused response s' stranger =
      All-map
        (λ route. elim [
          | inl public ↦ inl public
          | inr (h, e) ↦ inr (ap (λ f. f r s) e ∙ authn-stranger response s' h stranger)
        ])
        (register_routes codec d) (register_routes-IsPrivate codec d)

  module _ (token : String) (user_id household_id : Uuid) (s' s'' : S)
      (there : extract_bearer r ≡ some token) (valid : d.validate token s ≡ (ok user_id, s'))
      (path : codec.parse_uuid (r.path_value "household_id") ≡ some household_id) where
    guarded-outsider :
        (e : Error) (f : Handler S)
        → d.find_membership household_id user_id s' ≡ (err e, s'')
        → is e Sentinel.household_member_not_found ≡ true
        → IsScoped codec d f
        → f r s ≡ (ok (refusal 403 msg_authz_forbidden), s'')
    unfolding guarded admin_guarded household_guard household_admin_guard
    guarded-outsider e f missing outsider (inl (h, same)) =
        ap (λ g. g r s) same
        ∙ authn-next d.validate (member_only codec d h) r s token user_id s' there valid
        ∙ checked_guard-outsider codec d.find_membership "household_id" false h r s' s'' user_id
            household_id path e missing outsider
    guarded-outsider e f missing outsider (inr (h, same)) =
        ap (λ g. g r s) same
        ∙ authn-next d.validate (admin_only codec d h) r s token user_id s' there valid
        ∙ checked_guard-outsider codec d.find_membership "household_id" true h r s' s'' user_id
            household_id path e missing outsider

    -- A request whose token validates for a user, and whose path names a household, is refused
    -- with the status 403 by every route whose pattern names a household, if the lookup of the
    -- user's membership there fails as not found; no service is called, the state is as the two
    -- lookups left it.
    pub outsiders_are_refused :
        (e : Error)
        → d.find_membership household_id user_id s' ≡ (err e, s'')
        → is e Sentinel.household_member_not_found ≡ true
        → All
            (λ route.
              (is_scoped route.0 ≡ false)
              ⊎ (route.1 r s ≡ (ok (refusal 403 msg_authz_forbidden), s'')))
            (register_routes codec d)
    outsiders_are_refused e missing outsider =
        All-map
          (λ route. elim [
            | inl elsewhere ↦ inl elsewhere
            | inr scoped ↦ inr (guarded-outsider e route.1 missing outsider scoped)
          ])
          (register_routes codec d) (register_routes-IsScoped codec d)

    -- A member who is no admin is refused with the status 403 by the routes that change the
    -- household itself, its users or its members; no service is called, the state is as the two
    -- lookups left it.
    pub members_do_not_manage :
        (m : Membership)
        → d.find_membership household_id user_id s' ≡ (ok m, s'')
        → (m.role == role_admin) ≡ false
        → All
            (λ route.
              (is_managing route.0 ≡ false)
              ⊎ (route.1 r s ≡ (ok (refusal 403 msg_authz_admin_required), s'')))
            (register_routes codec d)
    unfolding admin_guarded household_admin_guard
    members_do_not_manage m member no_admin =
        All-map
          (λ route. elim [
            | inl elsewhere ↦ inl elsewhere
            | inr (h, same) ↦ inr (
                ap (λ g. g r s) same
                ∙ authn-next d.validate (admin_only codec d h) r s token user_id s' there valid
                ∙ checked_guard-member codec d.find_membership "household_id" true h r s' s''
                    user_id household_id path m member (rw no_admin))
          ])
          (register_routes codec d) (register_routes-IsManaging codec d)
