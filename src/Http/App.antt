-- ===== src/Http/App.antt =====
-- `create_app` of src/http/mod.rs: the routes and the layers around them.
pub mod Protection
mod Tests
use sms_server.Base.{
  ℕ, Bool, true, false, List, [], ◌∷◌, ◌++◌, map, Option, none, some, Result, ok, err, ◌>>=◌,
  if◌then◌else◌, Text,
}
use sms_server.Text.{codes, message}
use sms_server.Config.{HttpConfig}

pub data Layer : Type 0 where
  version_header permissive_cors sentry_layers : Layer
  authentication : Text → Layer

pub data Method : Type 0 where
  get post : Method

-- A route with its layers, the outermost first.
pub record Route : Type 0 where
  pub path : Text
  pub method : Method
  pub layers : List Layer

abbrev pub route : Method → Text → Route
route method path = record { path = path; method = method; layers = [] }

-- `Router::layer` wraps the routes that are there, not those that are added later.
abbrev pub layer : Layer → List Route → List Route
layer l [] = []
layer l (r ∷ rs) = record r { layers = l ∷ r.layers } ∷ layer l rs

abbrev pub base_routes : List Route
base_routes =
    route post (codes "/db/messages")
    ∷ route post (codes "/db/latest-numbers")
    ∷ route post (codes "/db/delivery-reports")
    ∷ route post (codes "/db/friendly-names/set")
    ∷ route post (codes "/db/friendly-names/get")
    ∷ route post (codes "/sms/send")
    ∷ route get (codes "/sms/network-status")
    ∷ route get (codes "/sms/signal-strength")
    ∷ route get (codes "/sms/network-operator")
    ∷ route get (codes "/sms/service-provider")
    ∷ route get (codes "/sms/battery-level")
    ∷ route get (codes "/sms/device-info")
    ∷ route get (codes "/gnss/status")
    ∷ route get (codes "/gnss/location")
    ∷ route get (codes "/sys/phone-number")
    ∷ route get (codes "/sys/version")
    ∷ route post (codes "/sys/set-log-level")
    ∷ []

abbrev pub when : Bool → (List Route → List Route) → List Route → List Route
when true f routes = f routes
when false f routes = routes

abbrev pub authenticated : Bool → Option Text → List Route → Result (List Route)
authenticated false token routes = ok routes
authenticated true (some token) routes = ok (layer (authentication token) routes)
authenticated true none routes = err (
    message
      "Missing required SMS_HTTP_AUTH_TOKEN environment variable, and require_authentication is enabled!")

-- The Swagger UI has more paths, below `/docs`.
abbrev pub docs_routes : List Route
docs_routes = route get (codes "/docs") ∷ route get (codes "/docs/openapi.json") ∷ []

-- `token` is the environment's SMS_HTTP_AUTH_TOKEN; `openapi` whether the feature is compiled in;
-- `sentry` whether that feature is, and a guard is there.
unfoldable pub create_app : HttpConfig → Bool → Option Text → Bool → Bool → Result (List Route)
create_app config has_websocket token openapi sentry = do
  routes ← authenticated config.require_authentication token (
      when has_websocket (λ routes. routes ++ route get (codes "/ws") ∷ [])
        (when config.permissive_cors (layer permissive_cors) (layer version_header base_routes)))
  ok (when sentry (layer sentry_layers) (when openapi (λ routes. routes ++ docs_routes) routes))
