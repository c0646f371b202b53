-- ===== src/Http/Response.antt =====
-- internal/adapter/http/response.go: how responses are written, and the map from errors to
-- statuses; with `handleDomainError` and `parseUUID` of user.go.
pub mod Statuses
use pfm_go.Common.{ℕ, String, Option, none, some, List, [], ◌∷◌, ◌*◌, string_eq, if◌then◌else◌}
use pfm_go.Types.{Uuid}
use pfm_go.GoMap.{Map, insert}
use pfm_go.Effect.{Action, pure, attempt}
use pfm_go.Message.{
  Reason, Violation, Error, Sentinel, is, as_validation, msg_validation_failed, msg_not_found,
  msg_conflict, msg_internal_error, msg_unbalanced_ledger, msg_balance_not_zero,
  msg_not_credit_card, msg_last_admin, msg_login_invalid_credentials, msg_bad_request_body,
  msg_authz_bad_request,
}
use pfm_go.Http.{Request}
use pfm_go.Http.Wire.{Body, Decoded, Codec, Payload}

pub record Response : Type 0 where
  pub status : ℕ
  pub content_type : Option String
  pub location : Option String
  pub body : Payload

abbrev mime_json : String
mime_json = "application/json"

-- `http.HandlerFunc`: it answers, or panics with the service that it calls.
abbrev pub Handler : Type 0 → Type 0
Handler S = Request → Action S Response

unfoldable pub write_json : ℕ → Payload → Response
write_json status v = record {
  status = status;
  content_type = some mime_json;
  location = none;
  body = v;
}

unfoldable pub write_created : String → Payload → Response
unfolding write_json
write_created location v = record (write_json 201 v) { location = some location }

unfoldable pub write_no_content : Response
write_no_content = record {
  status = 204;
  content_type = none;
  location = none;
  body = Payload.nothing;
}

abbrev pub max_request_body_bytes : ℕ
max_request_body_bytes = 1024 * 1024

pub record ErrorMapping : Type 0 where
  pub sentinel : Sentinel
  pub status : ℕ
  pub message : String

abbrev mapping : Sentinel → ℕ → String → ErrorMapping
mapping s status message = record { sentinel = s; status = status; message = message }

abbrev err_mappings : List ErrorMapping
err_mappings =
    mapping Sentinel.login_invalid_credentials 401 msg_login_invalid_credentials
    ∷ mapping Sentinel.user_not_found 404 msg_not_found
    ∷ mapping Sentinel.household_not_found 404 msg_not_found
    ∷ mapping Sentinel.household_member_not_found 404 msg_not_found
    ∷ mapping Sentinel.account_not_found 404 msg_not_found
    ∷ mapping Sentinel.credit_card_settings_not_found 404 msg_not_found
    ∷ mapping Sentinel.user_version_conflict 409 msg_conflict
    ∷ mapping Sentinel.household_version_conflict 409 msg_conflict
    ∷ mapping Sentinel.account_version_conflict 409 msg_conflict
    ∷ mapping Sentinel.credit_card_settings_version_conflict 409 msg_conflict
    ∷ mapping Sentinel.user_email_taken 409 msg_conflict
    ∷ mapping Sentinel.household_member_exists 409 msg_conflict
    ∷ mapping Sentinel.account_name_taken 409 msg_conflict
    ∷ mapping Sentinel.credit_card_settings_exists 409 msg_conflict
    ∷ mapping Sentinel.ledger_unbalanced 422 msg_unbalanced_ledger
    ∷ mapping Sentinel.account_balance_not_zero 409 msg_balance_not_zero
    ∷ mapping Sentinel.credit_card_settings_not_credit_card 409 msg_not_credit_card
    ∷ mapping Sentinel.household_last_admin 409 msg_last_admin
    ∷ []

-- The loop of `MapError`: the first entry that matches wins.
unfoldable pub first_match : List ErrorMapping → Error → ℕ × String
first_match [] e = (500, msg_internal_error)
first_match (m ∷ ms) e =
    let rest = first_match ms e in if is e m.sentinel then (m.status, m.message) else rest

unfoldable pub map_error : Error → ℕ × String
unfolding first_match
map_error e = first_match err_mappings e

unfoldable pub write_error : Error → Response
unfolding map_error write_json
write_error e = let (status, msg) = map_error e in write_json status (Payload.error_message msg)

-- `WriteJSON(w, http.StatusBadRequest, map[string]string{"error": msg})`
unfoldable pub bad_request : String → Response
unfolding write_json
bad_request msg = write_json 400 (Payload.error_message msg)

module _ (codec : Codec) where
  -- The loop of `WriteValidationError`: of two violations of a field the last one is shown.
  unfoldable fields_of : Map String Reason → List Violation → Map String Reason
  fields_of fields [] = fields
  fields_of fields (v ∷ vs) = fields_of (insert (codec.field_text v.field) v.message fields) vs

  unfoldable pub write_validation_error : List Violation → Response
  unfolding fields_of write_json
  write_validation_error vs =
      write_json 400 (Payload.violations msg_validation_failed (fields_of [] vs))

  unfoldable pub handle_domain_error : Error → Response
  unfolding write_validation_error write_error
  handle_domain_error e = elim (as_validation e) [
    | none ↦ write_error e
    | some vs ↦ write_validation_error vs
  ]

  module _ {S : Type 0} where
    -- `if err != nil { … return }` behind a value that is parsed: none replies at once.
    unfoldable pub or_reply :
        {A : Type 0} → Option A → Response → (A → Action S Response) → Action S Response
    or_reply none response k = pure response
    or_reply (some a) response k = k a

    -- `id, err := parseUUID(r.PathValue(name))` with the reply to a text that is no UUID
    unfoldable pub with_path_id : String → Request → (Uuid → Action S Response) → Action S Response
    unfolding or_reply bad_request
    with_path_id name r =
        or_reply (codec.parse_uuid (r.path_value name)) (bad_request msg_authz_bad_request)

    -- `DecodeBody(r, &req)` with the reply to a body that does not decode
    unfoldable pub with_body :
        (b : Body) → Request → (Decoded b → Action S Response) → Action S Response
    unfolding or_reply bad_request
    with_body b r =
        or_reply (codec.decode max_request_body_bytes b r.body) (bad_request msg_bad_request_body)

    -- The call of the service: an error goes to `handleDomainError`.
    unfoldable pub answer : {A : Type 0} → Action S A → (A → Response) → Action S Response
    unfolding handle_domain_error
    answer call write = attempt call (λ e. pure (handle_domain_error e)) (λ a. pure (write a))
