-- ===== src/Http/App/Tests.antt =====
-- The app with the default settings.
use sms_server.Base.{
  ◌≡◌, refl, true, false, List, [], ◌∷◌, ◌++◌, Option, none, some, Result, ok, err, all, Text,
}
use sms_server.Text.{codes, message}
use sms_server.Config.{default_http_config}
use sms_server.Http.Types.{failure}
use sms_server.Http.Auth.{auth_middleware}
use sms_server.Http.App.{
  Route, create_app, layer, authentication, version_header, permissive_cors, sentry_layers,
  base_routes, docs_routes, route, get,
}
use sms_server.Http.App.Protection.{is_guarded, create_app_guarded}

missing_token :
    create_app default_http_config true none true false
    ≡ err (
        codes
          "Missing required SMS_HTTP_AUTH_TOKEN environment variable, and require_authentication is enabled!")
unfolding create_app default_http_config message
missing_token = refl

abbrev no_header : Option (Result Text)
no_header = none

refused :
    auth_middleware (codes "secret") no_header
    ≡ failure (record { status = 401; message = message "Missing authorization header" })
unfolding auth_middleware
refused = refl

required : default_http_config.require_authentication ≡ true
unfolding default_http_config
required = refl

abbrev app : List Route
app = layer sentry_layers (
    layer (authentication (codes "secret"))
      (layer permissive_cors (layer version_header base_routes) ++ route get (codes "/ws") ∷ [])
    ++ docs_routes)

made : create_app default_http_config true (some (codes "secret")) true true ≡ ok app
unfolding create_app default_http_config
made = refl

create_app_guarded_example : all (is_guarded true no_header) app ≡ true
create_app_guarded_example =
    create_app_guarded true no_header default_http_config true (codes "secret") true true _ app
      required refused made
