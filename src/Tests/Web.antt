-- ===== src/Tests/Web.antt =====
-- internal/adapter/http and internal/middleware at concrete inputs: a service in which one token
-- and one household are known.
use pfm_go.Common.{
  ℕ, String, true, false, ◌≡◌, refl, ◌↔◌, ◌⊎◌, inl, Option, none, some, All, ◌==◌, string_eq,
  nat_eq, if◌then◌else◌,
}
use pfm_go.Common.Int.{pos}
use pfm_go.Types.{role_member}
use pfm_go.Message.{
  sentinel, wrapped, Sentinel, is, msg_authn_missing_token, msg_authz_forbidden,
  msg_authz_admin_required,
}
use pfm_go.Effect.{Action, ok, pure, fail}
use pfm_go.Household.{Membership}
use pfm_go.Account.{Account}
use pfm_go.Http.{Request, background}
use pfm_go.Http.Wire.{Body, Decoded, Codec, UpdateAccountBalanceRequest}
use pfm_go.Http.Response.{map_error}
use pfm_go.Http.Response.Statuses.{map_error-root}
use pfm_go.Http.Bearer.{extract_bearer, refusal, strip_prefix, has_blank}
use pfm_go.Http.Bearer.Tokens.{IsToken, extract_bearer_iff}
use pfm_go.Http.Accounts.{show_account, update_account_balance_handler}
use pfm_go.Http.Routes.{RouteDeps, register_routes, guarded}
use pfm_go.Http.Routes.Scopes.{is_public, is_scoped, is_managing}
use pfm_go.Http.Routes.Outsiders.{
  strangers_are_refused, outsiders_are_refused, members_do_not_manage,
}
use pfm_go.Http.Routes.Elsewhere.{members_reach_any_account}

abbrev decoded : ℕ → (b : Body) → String → Option (Decoded b)
decoded _ Body.login _ = some (record { email = "ann@pfm.org"; password = "long enough" })
decoded _ Body.update_account_balance _ = some (record { balance = pos 500; version = pos 1 })
decoded _ Body.change_password _ = none
decoded _ Body.update_profile _ = none
decoded _ Body.create_household _ = none
decoded _ Body.add_member _ = none
decoded _ Body.update_name _ = none
decoded _ Body.create_household_user _ = none
decoded _ Body.create_account _ = none
decoded _ Body.create_settings _ = none
decoded _ Body.update_closing_day _ = none
decoded _ Body.update_due_day _ = none
decoded _ Body.update_credit_limit _ = none
decoded _ Body.post_transaction _ = none

abbrev pub codec : Codec
codec = record {
  parse_uuid = λ s. (if s == "seven" then some 7 else if s == "eight" then some 8 else none);
  uuid_string = λ _. "id";
  rfc3339 = λ _. "time";
  date_string = λ _. "date";
  parse_date = λ _. none;
  atoi = λ _. none;
  field_text = λ _. "field";
  decode = decoded;
}

abbrev World : Type 0
World = Unit {0}

abbrev fails : {A : Type 0} → Action World A
fails = fail (sentinel Sentinel.user_not_found)

abbrev member : Membership
member = record { household_id = 7; user_id = 3; role = role_member; invited_by = 1; joined_at = 0 }

-- An account of the household 9.
abbrev account : Account
account = record {
  id = 8;
  household_id = 9;
  name = "Wallet";
  account_type = "CHECKING";
  currency_code = "USD";
  balance = pos 500;
  status = "ACTIVE";
  version = pos 2;
  created_at = 0;
  updated_at = 0;
  created_by = 1;
  updated_by = 3;
}

abbrev deps : RouteDeps World
deps = record {
  version = "dev";
  shutting_down = false;
  scalar_html = "";
  swagger_yaml = "";
  validate = λ token. (if token == "good" then pure 3 else fail (sentinel Sentinel.token_invalid));
  find_membership = λ household_id _.
      (if household_id == 7
        then pure member
        else fail (sentinel Sentinel.household_member_not_found));
  login = λ _ _. fails;
  get_user = λ _. fails;
  update_profile = λ _ _ _ _. fails;
  change_password = λ _ _ _ _. fails;
  deactivate_user = λ _ _. fails;
  create_household = λ _ _. fails;
  create_household_user = λ _ _ _. fails;
  get_household = λ _. fails;
  list_households = λ _. fails;
  add_member = λ _ _ _. fails;
  remove_member = λ _ _ _. fails;
  update_household_name = λ _ _ _ _. fails;
  deactivate_household = λ _ _. fails;
  create_account = λ _ _ _. fails;
  get_account = λ _. fails;
  list_accounts = λ _. fails;
  update_account_name = λ _ _ _ _. fails;
  update_account_balance = λ _ _ _ _. pure account;
  deactivate_account = λ _ _. fails;
  create_settings = λ _ _ _. fails;
  get_settings = λ _. fails;
  update_closing_day = λ _ _ _ _. fails;
  update_due_day = λ _ _ _ _. fails;
  update_credit_limit = λ _ _ _ _. fails;
  delete_settings = λ _ _. fails;
  post_transaction = λ _ _ _. fails;
  get_balance = λ _. fails;
  get_transaction_history = λ _ _. fails;
}

-- A request with the given header and household.
abbrev request : String → String → Request
request authorization household_id = record {
  method = "PUT";
  header = λ name. (if name == "Authorization" then authorization else "");
  path_value = λ name. (if name == "household_id" then household_id else "eight");
  query = λ _. "";
  body = "{}";
  ctx = background;
}

abbrev insider : Request
insider = request "Bearer good" "seven"

abbrev outsider : Request
outsider = request "Bearer good" "eight"

abbrev pub stranger : Request
stranger = request "" "seven"

has_token : extract_bearer insider ≡ some "good"
unfolding extract_bearer strip_prefix has_blank
has_token = refl

outsider_has_token : extract_bearer outsider ≡ some "good"
unfolding extract_bearer strip_prefix has_blank
outsider_has_token = refl

has_no_token : extract_bearer stranger ≡ none
unfolding extract_bearer
has_no_token = refl

extract_bearer_iff_example :
    (extract_bearer insider ≡ some "good")
    ↔ ((insider.header "Authorization" ≡ "Bearer good") × IsToken "good")
extract_bearer_iff_example = extract_bearer_iff insider "good"

map_error-root_example :
    map_error (wrapped "account logic: %w" (sentinel Sentinel.account_not_found))
    ≡ (404, "resource not found")
map_error-root_example =
    map_error-root (wrapped "account logic: %w" (sentinel Sentinel.account_not_found))

strangers_are_refused_example :
    All
      (λ route.
        (is_public route.0 ≡ true)
        ⊎ (route.1 stranger tt ≡ (ok (refusal 401 msg_authn_missing_token), tt)))
      (register_routes codec deps)
strangers_are_refused_example =
    strangers_are_refused codec deps stranger tt (refusal 401 msg_authn_missing_token) tt
      (inl (has_no_token, refl, refl))

outsiders_are_refused_example :
    All
      (λ route.
        (is_scoped route.0 ≡ false)
        ⊎ (route.1 outsider tt ≡ (ok (refusal 403 msg_authz_forbidden), tt)))
      (register_routes codec deps)
unfolding is
outsiders_are_refused_example =
    outsiders_are_refused codec deps outsider tt "good" 3 8 tt tt outsider_has_token refl refl
      (sentinel Sentinel.household_member_not_found) refl refl

members_do_not_manage_example :
    All
      (λ route.
        (is_managing route.0 ≡ false)
        ⊎ (route.1 insider tt ≡ (ok (refusal 403 msg_authz_admin_required), tt)))
      (register_routes codec deps)
members_do_not_manage_example =
    members_do_not_manage codec deps insider tt "good" 3 7 tt tt has_token refl refl member refl
      refl

abbrev new_balance : UpdateAccountBalanceRequest
new_balance = record { balance = pos 500; version = pos 1 }

members_reach_any_account_example :
    guarded codec deps (update_account_balance_handler codec deps.update_account_balance) insider tt
    ≡ (ok (show_account codec account), tt)
members_reach_any_account_example =
    members_reach_any_account codec deps insider "good" 3 7 8 member new_balance account tt tt tt tt
      has_token refl refl refl refl refl refl
