-- ===== src/Http/Guards.antt =====
-- internal/middleware/authz.go: the guards of the routes of a household.
pub mod Outcomes
use pfm_go.Common.{String, Bool, true, false, not, none, some, ◌&&◌, ◌==◌, string_eq, if◌then◌else◌}
use pfm_go.Types.{Uuid, Role, AccountType, role_admin}
use pfm_go.Message.{
  Sentinel, is, msg_authz_unauthenticated, msg_authz_forbidden, msg_authz_not_found,
  msg_authz_bad_request, msg_authz_admin_required,
}
use pfm_go.Effect.{Action, pure, fail, attempt}
use pfm_go.Household.{Membership}
use pfm_go.Account.{Account}
use pfm_go.Http.{Request, with_household_id, with_role, with_context}
use pfm_go.Http.Wire.{Codec}
use pfm_go.Http.Response.{Handler}
use pfm_go.Http.Bearer.{refusal}

-- `MembershipRoleFinder.FindRole` and `AccountTypeFinder.FindAccountType` of routes.go, over the
-- lookups that they wrap.
unfoldable pub find_role :
    {S : Type 0} → (Uuid → Uuid → Action S Membership) → Uuid → Uuid → Action S Role
find_role find_membership household_id user_id =
    attempt (find_membership household_id user_id) fail (λ m. pure m.role)

unfoldable pub find_account_type :
    {S : Type 0} → (Uuid → Action S Account) → Uuid → Action S AccountType
find_account_type find_by_id account_id =
    attempt (find_by_id account_id) fail (λ a. pure a.account_type)

module _ (codec : Codec) {S : Type 0} (find_role : Uuid → Uuid → Action S Role) where
  -- `membershipFinder` is the function `find_role`.
  unfoldable pub checked_guard : String → Bool → Handler S → Handler S
  unfolding refusal
  checked_guard path_param require_admin next r = elim r.ctx.user_id [
    | none ↦ pure (refusal 401 msg_authz_unauthenticated)
    | some user_id ↦ elim (codec.parse_uuid (r.path_value path_param)) [
      | none ↦ pure (refusal 400 msg_authz_bad_request)
      | some household_id ↦
          attempt (find_role household_id user_id)
            (λ e.
              if is e Sentinel.household_member_not_found
              then pure (refusal 403 msg_authz_forbidden)
              else (if is e Sentinel.household_not_found
                  then pure (refusal 404 msg_authz_not_found)
                  else pure (refusal 403 msg_authz_forbidden)))
            λ role.
              if require_admin && not (role == role_admin)
              then pure (refusal 403 msg_authz_admin_required)
              else next (with_context r (with_role (with_household_id r.ctx household_id) role))
    ]
  ]

  unfoldable pub household_guard : String → Handler S → Handler S
  unfolding checked_guard
  household_guard path_param = checked_guard path_param false

  unfoldable pub household_admin_guard : String → Handler S → Handler S
  unfolding checked_guard
  household_admin_guard path_param = checked_guard path_param true
