-- ===== src/Http/Health.antt =====
-- internal/adapter/http/health.go and docs.go: the public handlers.
use pfm_go.Common.{String, Bool, not, none, some, ◌==◌, string_eq, if◌then◌else◌}
use pfm_go.Message.{msg_health_not_ready}
use pfm_go.Effect.{pure}
use pfm_go.Http.Wire.{Payload}
use pfm_go.Http.Response.{Response, Handler, write_json}

-- `http.Error(w, http.StatusText(http.StatusMethodNotAllowed), http.StatusMethodNotAllowed)`
unfoldable method_not_allowed : Response
method_not_allowed = record {
  status = 405;
  content_type = some "text/plain; charset=utf-8";
  location = none;
  body = Payload.document "Method Not Allowed";
}

module _ {S : Type 0} where
  unfoldable pub health_handler : String → Handler S
  unfolding method_not_allowed write_json
  health_handler version r =
      if not (r.method == "GET")
      then pure method_not_allowed
      else pure (write_json 200 (Payload.status_version "ok" version))

  unfoldable pub live_handler : Handler S
  unfolding method_not_allowed write_json
  live_handler r =
      if not (r.method == "GET")
      then pure method_not_allowed
      else pure (write_json 200 (Payload.status_message "ok" none))

  -- `shutting_down` is the value that the atomic flag has at the call.
  unfoldable pub ready_handler : Bool → Handler S
  unfolding method_not_allowed write_json
  ready_handler shutting_down r =
      if not (r.method == "GET")
      then pure method_not_allowed
      else (if shutting_down
          then pure (write_json 503 (Payload.status_message "error" (some msg_health_not_ready)))
          else pure (write_json 200 (Payload.status_message "ok" none)))

  -- The page is the constant `scalarHTML`, the specification a file that is embedded.
  unfoldable pub docs_handler : String → Handler S
  docs_handler scalar_html _ = pure (record {
    status = 200;
    content_type = some "text/html; charset=utf-8";
    location = none;
    body = Payload.document scalar_html;
  })

  unfoldable pub open_api_handler : String → Handler S
  open_api_handler swagger_yaml _ = pure (record {
    status = 200;
    content_type = some "application/yaml";
    location = none;
    body = Payload.document swagger_yaml;
  })
