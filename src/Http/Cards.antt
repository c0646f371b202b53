-- ===== src/Http/Cards.antt =====
-- internal/adapter/http/creditcard.go: the handlers of the settings of credit cards.
use pfm_go.Common.Int.{ℤ}
use pfm_go.Types.{Uuid}
use pfm_go.Effect.{Action}
use pfm_go.CreditCard.{
  Settings, CreateInput, UpdateClosingDayInput, UpdateDueDayInput, UpdateLimitInput,
}
use pfm_go.Http.{caller_id}
use pfm_go.Http.Wire.{Body, Codec, Payload, SettingsResponse}
use pfm_go.Http.Response.{
  Response, Handler, write_json, write_created, write_no_content, with_path_id, with_body, answer,
}

module _ (codec : Codec) where
  unfoldable to_settings_response : Settings → SettingsResponse
  to_settings_response s = record {
    id = codec.uuid_string s.id;
    account_id = codec.uuid_string s.account_id;
    closing_day = s.closing_day;
    due_day = s.due_day;
    limit_amount = s.limit_amount;
    version = s.version;
    created_at = codec.rfc3339 s.created_at;
    updated_at = codec.rfc3339 s.updated_at;
  }

  unfoldable show_settings : Settings → Response
  unfolding to_settings_response write_json
  show_settings s = write_json 200 (Payload.settings (to_settings_response s))

  unfoldable created_settings : Settings → Response
  unfolding to_settings_response write_created
  created_settings s = write_created "" (Payload.settings (to_settings_response s))

  module _ {S : Type 0} where
    unfoldable pub create_credit_card_settings_handler :
        (Uuid → CreateInput → Uuid → Action S Settings) → Handler S
    unfolding with_path_id with_body answer caller_id created_settings
    create_credit_card_settings_handler create r = with_path_id codec "account_id" r λ account_id.
        with_body codec Body.create_settings r λ req.
          let input : CreateInput = record {
            closing_day = req.closing_day;
            due_day = req.due_day;
            limit_amount = req.limit_amount;
          } in
          answer codec (create account_id input (caller_id r)) created_settings

    unfoldable pub get_credit_card_settings_handler : (Uuid → Action S Settings) → Handler S
    unfolding with_path_id answer show_settings
    get_credit_card_settings_handler find_by_account_id r =
        with_path_id codec "account_id" r
          λ account_id. answer codec (find_by_account_id account_id) show_settings

    unfoldable pub update_closing_day_handler :
        (Uuid → UpdateClosingDayInput → ℤ → Uuid → Action S Settings) → Handler S
    unfolding with_path_id with_body answer caller_id show_settings
    update_closing_day_handler update_closing_day r =
        with_path_id codec "account_id" r λ account_id.
          with_body codec Body.update_closing_day r λ req.
            answer codec
              (update_closing_day account_id (record { closing_day = req.closing_day }) req.version
                (caller_id r))
              show_settings

    unfoldable pub update_due_day_handler :
        (Uuid → UpdateDueDayInput → ℤ → Uuid → Action S Settings) → Handler S
    unfolding with_path_id with_body answer caller_id show_settings
    update_due_day_handler update_due_day r = with_path_id codec "account_id" r λ account_id.
        with_body codec Body.update_due_day r λ req.
          answer codec
            (update_due_day account_id (record { due_day = req.due_day }) req.version (caller_id r))
            show_settings

    unfoldable pub update_credit_limit_handler :
        (Uuid → UpdateLimitInput → ℤ → Uuid → Action S Settings) → Handler S
    unfolding with_path_id with_body answer caller_id show_settings
    update_credit_limit_handler update_limit r = with_path_id codec "account_id" r λ account_id.
        with_body codec Body.update_credit_limit r λ req.
          answer codec
            (update_limit account_id (record { limit_amount = req.limit_amount }) req.version
              (caller_id r))
            show_settings

    unfoldable pub delete_credit_card_settings_handler :
        (Uuid → Uuid → Action S (Unit {0})) → Handler S
    unfolding with_path_id answer caller_id
    delete_credit_card_settings_handler delete r =
        with_path_id codec "account_id" r
          λ account_id. answer codec (delete account_id (caller_id r)) (λ _. write_no_content)
