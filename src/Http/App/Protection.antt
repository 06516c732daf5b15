-- ===== src/Http/App/Protection.antt =====
-- Which routes stand behind the token.
use sms_server.Base.{
  ◌≡◌, refl, ◌∙◌, Bool, true, false, ◌||◌, List, [], ◌∷◌, ◌++◌, Option, some, Result, ok, arith,
  all, ok_injective, subst, Text,
}
use sms_server.Text.{codes, starts_with}
use sms_server.Config.{HttpConfig}
use sms_server.Http.Types.{HttpResult, success, failure, HttpError}
use sms_server.Http.Auth.{auth_middleware}
use sms_server.Http.App.{
  Layer, Route, authentication, version_header, permissive_cors, sentry_layers, layer, create_app,
  docs_routes, when,
}

-- What the layers make of a request before it reaches the handler. The CORS layer answers a
-- preflight request itself; the others but authentication only add to what passes.
pub data Fate : Type 0 where
  reaches_handler answered_by_cors : Fate
  rejected : HttpError → Fate

abbrev authenticate : HttpResult (Unit {0}) → Fate → Fate
authenticate (failure e) inner = rejected e
authenticate (success u) inner = inner

abbrev fate : List Layer → Bool → Option (Result Text) → Fate
fate [] is_preflight header = reaches_handler
fate (authentication token ∷ ls) is_preflight header =
    authenticate (auth_middleware token header) (fate ls is_preflight header)
fate (permissive_cors ∷ ls) true header = answered_by_cors
fate (permissive_cors ∷ ls) false header = fate ls false header
fate (version_header ∷ ls) is_preflight header = fate ls is_preflight header
fate (sentry_layers ∷ ls) is_preflight header = fate ls is_preflight header

abbrev is_docs : Route → Bool
is_docs r = starts_with (codes "/docs") r.path

abbrev is_rejected : Fate → Bool
is_rejected (rejected e) = true
is_rejected _ = false

abbrev rejects : Bool → Option (Result Text) → Route → Bool
rejects is_preflight header r = is_rejected (fate r.layers is_preflight header)

module _ (is_preflight : Bool) (header : Option (Result Text)) where
  abbrev pub is_guarded : Route → Bool
  is_guarded r = is_docs r || rejects is_preflight header r

  authentication_guards :
      (token : Text) (e : HttpError) (routes : List Route)
      → auth_middleware token header ≡ failure e
      → all is_guarded (layer (authentication token) routes) ≡ true
  authentication_guards token e [] h = refl
  authentication_guards token e (r ∷ rs) h =
      rw (h, authentication_guards token e rs h) (ground arith)

  sentry_keeps :
      (routes : List Route) → all is_guarded (layer sentry_layers routes) ≡ all is_guarded routes
  sentry_keeps [] = refl
  sentry_keeps (r ∷ rs) = rw (sentry_keeps rs) refl

  docs_guarded :
      (routes : List Route)
      → all is_guarded routes ≡ true
      → all is_guarded (routes ++ docs_routes) ≡ true
  unfolding starts_with
  docs_guarded [] h = refl
  docs_guarded (r ∷ rs) h = ground (arith, h, docs_guarded rs)

  openapi_guarded :
      (openapi : Bool) (routes : List Route)
      → all is_guarded routes ≡ true
      → all is_guarded (when openapi (λ rs. rs ++ docs_routes) routes) ≡ true
  openapi_guarded true routes h = docs_guarded routes h
  openapi_guarded false routes h = h

  sentry_guarded :
      (sentry : Bool) (routes : List Route)
      → all is_guarded routes ≡ true
      → all is_guarded (when sentry (layer sentry_layers) routes) ≡ true
  sentry_guarded true routes h = sentry_keeps routes ∙ h
  sentry_guarded false routes h = h

  -- Where authentication is required, a request that the
  -- middleware refuses is rejected on every route but those of the documentation, be it a
  -- preflight request or not: authentication lies outside the CORS layer.
  pub create_app_guarded :
      (config : HttpConfig) (has_websocket : Bool) (token : Text) (openapi sentry : Bool)
      (e : HttpError) (app : List Route)
      → config.require_authentication ≡ true
      → auth_middleware token header ≡ failure e
      → create_app config has_websocket (some token) openapi sentry ≡ ok app
      → all is_guarded app ≡ true
  unfolding create_app
  create_app_guarded config has_websocket token openapi sentry e app required refused made =
      subst (λ routes. all is_guarded routes ≡ true) (ok_injective (rw required at made))
        (sentry_guarded sentry _
          (openapi_guarded openapi _ (authentication_guards token e _ refused)))
