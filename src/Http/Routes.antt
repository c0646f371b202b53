-- ===== src/Http/Routes.antt =====
-- internal/adapter/http/routes.go: the routes with the middleware around their handlers.
pub mod Scopes
pub mod Outsiders
pub mod Elsewhere
use pfm_go.Common.{String, Bool, List, [], ◌∷◌}
use pfm_go.Common.Int.{ℤ}
use pfm_go.Types.{Uuid}
use pfm_go.Effect.{Action}
use pfm_go.User.{User, UpdateProfileInput, ChangePasswordInput, LoginResult}
use pfm_go.Household
use pfm_go.Household.{Household, Membership, AddMemberInput, NewUserInput, CreatedMember}
use pfm_go.Account
use pfm_go.Account.{Account, UpdateBalanceInput}
use pfm_go.CreditCard
use pfm_go.CreditCard.{Settings, UpdateClosingDayInput, UpdateDueDayInput, UpdateLimitInput}
use pfm_go.Ledger.{Transaction, Entry, PostTransactionInput, HistoryQuery, TransactionWithEntries}
use pfm_go.Http.Wire.{Codec}
use pfm_go.Http.Response.{Handler}
use pfm_go.Http.Bearer.{authn}
use pfm_go.Http.Guards.{find_role, household_guard, household_admin_guard}
use pfm_go.Http.Health.{health_handler, live_handler, ready_handler, docs_handler, open_api_handler}
use pfm_go.Http.Users.{
  get_user_handler, change_password_handler, deactivate_user_handler, update_profile_handler,
  login_handler,
}
use pfm_go.Http.Households.{
  create_household_handler, get_household_handler, list_households_handler, add_member_handler,
  remove_member_handler, update_household_name_handler, create_household_user_handler,
  deactivate_household_handler,
}
use pfm_go.Http.Accounts.{
  create_account_handler, get_account_handler, list_accounts_handler, update_account_name_handler,
  update_account_balance_handler, deactivate_account_handler,
}
use pfm_go.Http.Cards.{
  create_credit_card_settings_handler, get_credit_card_settings_handler, update_closing_day_handler,
  update_due_day_handler, update_credit_limit_handler, delete_credit_card_settings_handler,
}
use pfm_go.Http.Ledgers.{
  post_transaction_handler, get_balance_handler, get_transaction_history_handler,
}

-- `RouteDeps`: each service is its one method. `find_membership` is the lookup that the
-- `MembershipRoleFinder` wraps; the two texts of the documentation are not in Go code.
pub record RouteDeps (S : Type 0) : Type 0 where
  pub version : String
  pub shutting_down : Bool
  pub scalar_html : String
  pub swagger_yaml : String
  pub validate : String → Action S Uuid
  pub find_membership : Uuid → Uuid → Action S Membership
  pub login : String → String → Action S LoginResult
  pub get_user : Uuid → Action S User
  pub update_profile : Uuid → UpdateProfileInput → ℤ → Uuid → Action S User
  pub change_password : Uuid → ChangePasswordInput → ℤ → Uuid → Action S User
  pub deactivate_user : Uuid → Uuid → Action S (Unit {0})
  pub create_household : Household.CreateInput → Uuid → Action S Household
  pub create_household_user : Uuid → NewUserInput → Uuid → Action S CreatedMember
  pub get_household : Uuid → Action S Household
  pub list_households : Uuid → Action S (List Household)
  pub add_member : Uuid → AddMemberInput → Uuid → Action S Membership
  pub remove_member : Uuid → Uuid → Uuid → Action S (Unit {0})
  pub update_household_name : Uuid → Household.UpdateNameInput → ℤ → Uuid → Action S Household
  pub deactivate_household : Uuid → Uuid → Action S (Unit {0})
  pub create_account : Uuid → Account.CreateInput → Uuid → Action S Account
  pub get_account : Uuid → Action S Account
  pub list_accounts : Uuid → Action S (List Account)
  pub update_account_name : Uuid → Account.UpdateNameInput → ℤ → Uuid → Action S Account
  pub update_account_balance : Uuid → UpdateBalanceInput → ℤ → Uuid → Action S Account
  pub deactivate_account : Uuid → Uuid → Action S (Unit {0})
  pub create_settings : Uuid → CreditCard.CreateInput → Uuid → Action S Settings
  pub get_settings : Uuid → Action S Settings
  pub update_closing_day : Uuid → UpdateClosingDayInput → ℤ → Uuid → Action S Settings
  pub update_due_day : Uuid → UpdateDueDayInput → ℤ → Uuid → Action S Settings
  pub update_credit_limit : Uuid → UpdateLimitInput → ℤ → Uuid → Action S Settings
  pub delete_settings : Uuid → Uuid → Action S (Unit {0})
  pub post_transaction : Uuid → PostTransactionInput → Uuid → Action S (Transaction × List Entry)
  pub get_balance : Uuid → Action S ℤ
  pub get_transaction_history : Uuid → HistoryQuery → Action S (List TransactionWithEntries)

module _ (codec : Codec) {S : Type 0} (d : RouteDeps S) where
  unfoldable pub guarded : Handler S → Handler S
  unfolding authn find_role household_guard
  guarded h =
      authn d.validate (household_guard codec (find_role d.find_membership) "household_id" h)

  unfoldable pub admin_guarded : Handler S → Handler S
  unfolding authn find_role household_admin_guard
  admin_guarded h =
      authn d.validate (household_admin_guard codec (find_role d.find_membership) "household_id" h)

  -- `RegisterRoutes`: the patterns with what `mux.Handle` registers for them.
  unfoldable pub register_routes : List (String × Handler S)
  unfolding guarded admin_guarded
  register_routes =
      ("GET /healthz", health_handler d.version)
      ∷ ("GET /health/live", live_handler)
      ∷ ("GET /health/ready", ready_handler d.shutting_down)
      ∷ ("GET /docs", docs_handler d.scalar_html)
      ∷ ("GET /api/v1/openapi.yaml", open_api_handler d.swagger_yaml)
      ∷ ("POST /auth/login", login_handler codec d.login)
      ∷ ("GET /api/v1/users/{id}", authn d.validate (get_user_handler codec d.get_user))
      ∷ ("PUT /api/v1/users/{id}", authn d.validate (update_profile_handler codec d.update_profile))
      ∷ (
        "PUT /api/v1/users/{id}/password",
        authn d.validate (change_password_handler codec d.change_password),
      )
      ∷ (
        "DELETE /api/v1/users/{id}",
        authn d.validate (deactivate_user_handler codec d.deactivate_user),
      )
      ∷ (
        "POST /api/v1/households",
        authn d.validate (create_household_handler codec d.create_household),
      )
      ∷ (
        "GET /api/v1/households",
        authn d.validate (list_households_handler codec d.list_households),
      )
      ∷ (
        "GET /api/v1/households/{household_id}",
        guarded (get_household_handler codec d.get_household),
      )
      ∷ (
        "PUT /api/v1/households/{household_id}",
        admin_guarded (update_household_name_handler codec d.update_household_name),
      )
      ∷ (
        "DELETE /api/v1/households/{household_id}",
        admin_guarded (deactivate_household_handler codec d.deactivate_household),
      )
      ∷ (
        "POST /api/v1/households/{household_id}/users",
        admin_guarded (create_household_user_handler codec d.create_household_user),
      )
      ∷ (
        "POST /api/v1/households/{household_id}/members",
        admin_guarded (add_member_handler codec d.add_member),
      )
      ∷ (
        "DELETE /api/v1/households/{household_id}/members/{user_id}",
        admin_guarded (remove_member_handler codec d.remove_member),
      )
      ∷ (
        "POST /api/v1/households/{household_id}/accounts",
        guarded (create_account_handler codec d.create_account),
      )
      ∷ (
        "GET /api/v1/households/{household_id}/accounts",
        guarded (list_accounts_handler codec d.list_accounts),
      )
      ∷ (
        "GET /api/v1/households/{household_id}/accounts/{id}",
        guarded (get_account_handler codec d.get_account),
      )
      ∷ (
        "PUT /api/v1/households/{household_id}/accounts/{id}/name",
        guarded (update_account_name_handler codec d.update_account_name),
      )
      ∷ (
        "PUT /api/v1/households/{household_id}/accounts/{id}/balance",
        guarded (update_account_balance_handler codec d.update_account_balance),
      )
      ∷ (
        "DELETE /api/v1/households/{household_id}/accounts/{id}",
        guarded (deactivate_account_handler codec d.deactivate_account),
      )
      ∷ (
        "POST /api/v1/households/{household_id}/accounts/{account_id}/credit-card-settings",
        guarded (create_credit_card_settings_handler codec d.create_settings),
      )
      ∷ (
        "GET /api/v1/households/{household_id}/accounts/{account_id}/credit-card-settings",
        guarded (get_credit_card_settings_handler codec d.get_settings),
      )
      ∷ (
        "PUT /api/v1/households/{household_id}/accounts/{account_id}/credit-card-settings/closing-day",
        guarded (update_closing_day_handler codec d.update_closing_day),
      )
      ∷ (
        "PUT /api/v1/households/{household_id}/accounts/{account_id}/credit-card-settings/due-day",
        guarded (update_due_day_handler codec d.update_due_day),
      )
      ∷ (
        "PUT /api/v1/households/{household_id}/accounts/{account_id}/credit-card-settings/limit",
        guarded (update_credit_limit_handler codec d.update_credit_limit),
      )
      ∷ (
        "DELETE /api/v1/households/{household_id}/accounts/{account_id}/credit-card-settings",
        guarded (delete_credit_card_settings_handler codec d.delete_settings),
      )
      ∷ (
        "POST /api/v1/households/{household_id}/transactions",
        guarded (post_transaction_handler codec d.post_transaction),
      )
      ∷ (
        "GET /api/v1/households/{household_id}/transactions",
        guarded (get_transaction_history_handler codec d.get_transaction_history),
      )
      ∷ (
        "GET /api/v1/households/{household_id}/accounts/{account_id}/balance",
        guarded (get_balance_handler codec d.get_balance),
      )
      ∷ []
