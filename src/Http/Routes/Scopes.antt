-- ===== src/Http/Routes/Scopes.antt =====
-- internal/adapter/http/routes.go: which routes have which middleware around their handlers.
use pfm_go.Common.{
  String, Bool, true, false, ◌||◌, ◌≡◌, refl, ◌⊎◌, inl, inr, List, [], ◌∷◌, All, ◌&◌, ◌==◌,
  string_eq,
}
use text.Mathlib.Text.{starts_with}
use pfm_go.Http.Wire.{Codec}
use pfm_go.Http.Response.{Handler}
use pfm_go.Http.Bearer.{authn}
use pfm_go.Http.Guards.{find_role, household_guard, household_admin_guard}
use pfm_go.Http.Users
use pfm_go.Http.Households
use pfm_go.Http.Accounts
use pfm_go.Http.Cards
use pfm_go.Http.Ledgers
use pfm_go.Http.Routes.{RouteDeps, register_routes, guarded, admin_guarded}

abbrev is_one_of : List String → String → Bool
is_one_of [] s = false
is_one_of (a ∷ as_listed) s = s == a || is_one_of as_listed s

-- The pattern of a route names a household.
abbrev pub is_scoped : String → Bool
is_scoped pattern =
    starts_with pattern "GET /api/v1/households/{household_id}"
    || starts_with pattern "POST /api/v1/households/{household_id}"
    || starts_with pattern "PUT /api/v1/households/{household_id}"
    || starts_with pattern "DELETE /api/v1/households/{household_id}"

-- The routes that change a household itself, its users or its members.
abbrev pub is_managing : String → Bool
is_managing = is_one_of (
    "PUT /api/v1/households/{household_id}" ∷ "DELETE /api/v1/households/{household_id}"
    ∷ "POST /api/v1/households/{household_id}/users"
    ∷ "POST /api/v1/households/{household_id}/members"
    ∷ "DELETE /api/v1/households/{household_id}/members/{user_id}" ∷ [])

-- The routes that anybody may ask for.
abbrev pub is_public : String → Bool
is_public = is_one_of (
    "GET /healthz" ∷ "GET /health/live" ∷ "GET /health/ready" ∷ "GET /docs"
    ∷ "GET /api/v1/openapi.yaml" ∷ "POST /auth/login" ∷ [])

module _ (codec : Codec) {S : Type 0} (d : RouteDeps S) where
  abbrev pub member_only : Handler S → Handler S
  member_only = household_guard codec (find_role d.find_membership) "household_id"

  abbrev pub admin_only : Handler S → Handler S
  admin_only = household_admin_guard codec (find_role d.find_membership) "household_id"

  -- The handler stands behind the token and one of the two guards.
  abbrev pub IsScoped : Handler S → Type 0
  IsScoped f =
      ((h : Handler S) × (f ≡ guarded codec d h))
      ⊎ ((h : Handler S) × (f ≡ admin_guarded codec d h))

  abbrev IsManaging : Handler S → Type 0
  IsManaging f = (h : Handler S) × (f ≡ admin_guarded codec d h)

  abbrev IsPrivate : Handler S → Type 0
  IsPrivate f = (h : Handler S) × (f ≡ authn d.validate h)

  pub register_routes-IsScoped :
      All (λ route. (is_scoped route.0 ≡ false) ⊎ IsScoped route.1) (register_routes codec d)
  unfolding register_routes
  register_routes-IsScoped =
      inl refl
      & inl refl
      & inl refl
      & inl refl
      & inl refl
      & inl refl
      & inl refl
      & inl refl
      & inl refl
      & inl refl
      & inl refl
      & inl refl
      & inr (inl (Households.get_household_handler codec d.get_household, refl))
      & inr (inr (Households.update_household_name_handler codec d.update_household_name, refl))
      & inr (inr (Households.deactivate_household_handler codec d.deactivate_household, refl))
      & inr (inr (Households.create_household_user_handler codec d.create_household_user, refl))
      & inr (inr (Households.add_member_handler codec d.add_member, refl))
      & inr (inr (Households.remove_member_handler codec d.remove_member, refl))
      & inr (inl (Accounts.create_account_handler codec d.create_account, refl))
      & inr (inl (Accounts.list_accounts_handler codec d.list_accounts, refl))
      & inr (inl (Accounts.get_account_handler codec d.get_account, refl))
      & inr (inl (Accounts.update_account_name_handler codec d.update_account_name, refl))
      & inr (inl (Accounts.update_account_balance_handler codec d.update_account_balance, refl))
      & inr (inl (Accounts.deactivate_account_handler codec d.deactivate_account, refl))
      & inr (inl (Cards.create_credit_card_settings_handler codec d.create_settings, refl))
      & inr (inl (Cards.get_credit_card_settings_handler codec d.get_settings, refl))
      & inr (inl (Cards.update_closing_day_handler codec d.update_closing_day, refl))
      & inr (inl (Cards.update_due_day_handler codec d.update_due_day, refl))
      & inr (inl (Cards.update_credit_limit_handler codec d.update_credit_limit, refl))
      & inr (inl (Cards.delete_credit_card_settings_handler codec d.delete_settings, refl))
      & inr (inl (Ledgers.post_transaction_handler codec d.post_transaction, refl))
      & inr (inl (Ledgers.get_transaction_history_handler codec d.get_transaction_history, refl))
      & inr (inl (Ledgers.get_balance_handler codec d.get_balance, refl))
      & tt

  pub register_routes-IsManaging :
      All (λ route. (is_managing route.0 ≡ false) ⊎ IsManaging route.1) (register_routes codec d)
  unfolding register_routes
  register_routes-IsManaging =
      inl refl
      & inl refl
      & inl refl
      & inl refl
      & inl refl
      & inl refl
      & inl refl
      & inl refl
      & inl refl
      & inl refl
      & inl refl
      & inl refl
      & inl refl
      & inr (Households.update_household_name_handler codec d.update_household_name, refl)
      & inr (Households.deactivate_household_handler codec d.deactivate_household, refl)
      & inr (Households.create_household_user_handler codec d.create_household_user, refl)
      & inr (Households.add_member_handler codec d.add_member, refl)
      & inr (Households.remove_member_handler codec d.remove_member, refl)
      & inl refl
      & inl refl
      & inl refl
      & inl refl
      & inl refl
      & inl refl
      & inl refl
      & inl refl
      & inl refl
      & inl refl
      & inl refl
      & inl refl
      & inl refl
      & inl refl
      & inl refl
      & tt

  pub register_routes-IsPrivate :
      All (λ route. (is_public route.0 ≡ true) ⊎ IsPrivate route.1) (register_routes codec d)
  unfolding register_routes guarded admin_guarded
  register_routes-IsPrivate =
      inl refl
      & inl refl
      & inl refl
      & inl refl
      & inl refl
      & inl refl
      & inr (Users.get_user_handler codec d.get_user, refl)
      & inr (Users.update_profile_handler codec d.update_profile, refl)
      & inr (Users.change_password_handler codec d.change_password, refl)
      & inr (Users.deactivate_user_handler codec d.deactivate_user, refl)
      & inr (Households.create_household_handler codec d.create_household, refl)
      & inr (Households.list_households_handler codec d.list_households, refl)
      & inr (member_only (Households.get_household_handler codec d.get_household), refl)
      & inr (
        admin_only (Households.update_household_name_handler codec d.update_household_name),
        refl,
      )
      & inr
          (admin_only (Households.deactivate_household_handler codec d.deactivate_household), refl)
      & inr (
        admin_only (Households.create_household_user_handler codec d.create_household_user),
        refl,
      )
      & inr (admin_only (Households.add_member_handler codec d.add_member), refl)
      & inr (admin_only (Households.remove_member_handler codec d.remove_member), refl)
      & inr (member_only (Accounts.create_account_handler codec d.create_account), refl)
      & inr (member_only (Accounts.list_accounts_handler codec d.list_accounts), refl)
      & inr (member_only (Accounts.get_account_handler codec d.get_account), refl)
      & inr (member_only (Accounts.update_account_name_handler codec d.update_account_name), refl)
      & inr (
        member_only (Accounts.update_account_balance_handler codec d.update_account_balance),
        refl,
      )
      & inr (member_only (Accounts.deactivate_account_handler codec d.deactivate_account), refl)
      & inr (member_only (Cards.create_credit_card_settings_handler codec d.create_settings), refl)
      & inr (member_only (Cards.get_credit_card_settings_handler codec d.get_settings), refl)
      & inr (member_only (Cards.update_closing_day_handler codec d.update_closing_day), refl)
      & inr (member_only (Cards.update_due_day_handler codec d.update_due_day), refl)
      & inr (member_only (Cards.update_credit_limit_handler codec d.update_credit_limit), refl)
      & inr (member_only (Cards.delete_credit_card_settings_handler codec d.delete_settings), refl)
      & inr (member_only (Ledgers.post_transaction_handler codec d.post_transaction), refl)
      & inr (
        member_only (Ledgers.get_transaction_history_handler codec d.get_transaction_history),
        refl,
      )
      & inr (member_only (Ledgers.get_balance_handler codec d.get_balance), refl)
      & tt
