-- ===== src/Http/Accounts.antt =====
-- internal/adapter/http/account.go: the handlers of accounts.
use Prim.Native.String
use pfm_go.Common.{List, map}
use pfm_go.Common.Int.{ℤ}
use pfm_go.Types.{Uuid}
use pfm_go.Effect.{Action}
use pfm_go.Account.{Account, CreateInput, UpdateNameInput, UpdateBalanceInput}
use pfm_go.Http.{caller_id}
use pfm_go.Http.Wire.{Body, Codec, Payload, AccountResponse}
use pfm_go.Http.Response.{
  Response, Handler, write_json, write_created, write_no_content, with_path_id, with_body, answer,
}

module _ (codec : Codec) where
  unfoldable to_account_response : Account → AccountResponse
  to_account_response a = record {
    id = codec.uuid_string a.id;
    household_id = codec.uuid_string a.household_id;
    name = a.name;
    account_type = a.account_type;
    currency_code = a.currency_code;
    balance = a.balance;
    status = a.status;
    version = a.version;
    created_at = codec.rfc3339 a.created_at;
    updated_at = codec.rfc3339 a.updated_at;
  }

  unfoldable pub show_account : Account → Response
  unfolding to_account_response write_json
  show_account a = write_json 200 (Payload.account (to_account_response a))

  unfoldable show_accounts : List Account → Response
  unfolding to_account_response write_json
  show_accounts as_found = write_json 200 (Payload.accounts (map to_account_response as_found))

  unfoldable created_account : Uuid → Account → Response
  unfolding to_account_response write_created
  created_account household_id a =
      let location = String.◌++◌ "/api/v1/households/" (
        String.◌++◌ (codec.uuid_string household_id)
          (String.◌++◌ "/accounts/" (codec.uuid_string a.id))) in
      write_created location (Payload.account (to_account_response a))

  module _ {S : Type 0} where
    unfoldable pub create_account_handler :
        (Uuid → CreateInput → Uuid → Action S Account) → Handler S
    unfolding with_path_id with_body answer caller_id created_account
    create_account_handler create r = with_path_id codec "household_id" r λ household_id.
        with_body codec Body.create_account r λ req.
          let input : CreateInput = record {
            name = req.name;
            account_type = req.account_type;
            currency_code = req.currency_code;
          } in
          answer codec (create household_id input (caller_id r)) (created_account household_id)

    unfoldable pub get_account_handler : (Uuid → Action S Account) → Handler S
    unfolding with_path_id answer show_account
    get_account_handler find_by_id r =
        with_path_id codec "id" r λ id. answer codec (find_by_id id) show_account

    unfoldable pub list_accounts_handler : (Uuid → Action S (List Account)) → Handler S
    unfolding with_path_id answer show_accounts
    list_accounts_handler list_for_household r =
        with_path_id codec "household_id" r
          λ household_id. answer codec (list_for_household household_id) show_accounts

    unfoldable pub update_account_name_handler :
        (Uuid → UpdateNameInput → ℤ → Uuid → Action S Account) → Handler S
    unfolding with_path_id with_body answer caller_id show_account
    update_account_name_handler update_name r = with_path_id codec "id" r λ id.
        with_body codec Body.update_name r λ req.
          answer codec (update_name id (record { name = req.name }) req.version (caller_id r))
            show_account

    unfoldable pub update_account_balance_handler :
        (Uuid → UpdateBalanceInput → ℤ → Uuid → Action S Account) → Handler S
    unfolding with_path_id with_body answer caller_id show_account
    update_account_balance_handler update_balance r = with_path_id codec "id" r λ id.
        with_body codec Body.update_account_balance r λ req.
          answer codec
            (update_balance id (record { balance = req.balance }) req.version (caller_id r))
            show_account

    unfoldable pub deactivate_account_handler : (Uuid → Uuid → Action S (Unit {0})) → Handler S
    unfolding with_path_id answer caller_id
    deactivate_account_handler deactivate r =
        with_path_id codec "id" r
          λ id. answer codec (deactivate id (caller_id r)) (λ _. write_no_content)
