-- ===== src/Routes.antt =====
-- The table of routes of cmd/server/main.go, with the middleware in front of each. Which route the
-- router takes for a request is left to it; its handlers are a parameter.
pub mod Guards
mod Tests
use Prim.Native.String.{◌++◌ as str_append}
use syncent.Base.{String, Bool, true, false, List, [], ◌∷◌, ◌++◌, map}
use syncent.External.{External}
use syncent.Config.{Config}
use syncent.Http.{Request, Response}
use syncent.Database.{Db}
use syncent.Middleware.{Handler, auth_middleware, admin_middleware}

pub data Method : Type 0 where
  get post put delete : Method

pub data Guard : Type 0 where
  auth admin : Guard

-- the handlers, by their names
pub data Endpoint : Type 0 where
  health check_setup setup verify_totp_setup login refresh generate_captcha : Endpoint
  validate_credentials is_registration_allowed register logout me get_2fa_status : Endpoint
  create_server list_servers list_snippets create_snippet delete_snippet get_server : Endpoint
  update_server delete_server inject_key manual_key_setup test_connection : Endpoint
  get_public_key reinject_key get_current_metrics get_metrics_history : Endpoint
  collect_metrics_now get_availability execute_command classify_command_preview : Endpoint
  get_server_history get_status_history dashboard_summary get_audit_log : Endpoint
  reset_password verify_audit_chain export_config import_config get_app_config : Endpoint
  update_app_config toggle_2fa : Endpoint
  handle_log_stream handle_terminal handle_gs_terminal handle_gs_logs frontend : Endpoint

pub record Route : Type 0 where
  pub method : Method
  pub pattern : String
  pub guards : List Guard
  pub endpoint : Endpoint

-- r.Get, r.Post, r.Put, r.Delete
abbrev pub on : Method → String → Endpoint → Route
on method pattern endpoint = record {
  method = method;
  pattern = pattern;
  guards = [];
  endpoint = endpoint;
}

-- r.Route
unfoldable pub route : String → List Route → List Route
route prefix [] = []
route prefix (r ∷ rest) = record r { pattern = str_append prefix r.pattern } ∷ route prefix rest

-- r.Use, for the routes that follow
unfoldable pub use_guard : Guard → List Route → List Route
use_guard g [] = []
use_guard g (r ∷ rest) = record r { guards = g ∷ r.guards } ∷ use_guard g rest

unfoldable pub auth_routes : List Route
unfolding route use_guard
auth_routes = route "/api/auth" (
    on get "/check-setup" check_setup
    ∷ on post "/setup" setup
    ∷ on post "/setup/verify" verify_totp_setup
    ∷ on post "/login" login
    ∷ on post "/refresh" refresh
    ∷ on get "/captcha" generate_captcha
    ∷ on post "/validate-credentials" validate_credentials
    ∷ on get "/registration-allowed" is_registration_allowed
    ∷ on post "/register" register
    ∷ use_guard auth
        (on post "/logout" logout ∷ on get "/me" me ∷ on get "/2fa-status" get_2fa_status ∷ []))

unfoldable pub server_routes : List Route
unfolding route use_guard
server_routes = route "/api/servers" (
    use_guard auth (
      on post "/" create_server
      ∷ on get "/" list_servers
      ∷ on get "/snippets" list_snippets
      ∷ on post "/snippets" create_snippet
      ∷ on delete "/snippets/{snippetId}" delete_snippet
      ∷ route "/{id}" (
          on get "/" get_server
          ∷ on put "/" update_server
          ∷ on delete "/" delete_server
          ∷ on post "/inject-key" inject_key
          ∷ on post "/manual-key" manual_key_setup
          ∷ on post "/test-connection" test_connection
          ∷ on get "/public-key" get_public_key
          ∷ on get "/reinject-key" reinject_key
          ∷ on get "/metrics/current" get_current_metrics
          ∷ on get "/metrics/history" get_metrics_history
          ∷ on post "/metrics/collect" collect_metrics_now
          ∷ on get "/availability" get_availability
          ∷ on post "/execute" execute_command
          ∷ on get "/execute/classify" classify_command_preview
          ∷ on get "/history" get_server_history
          ∷ on get "/status-history" get_status_history
          ∷ [])))

unfoldable pub admin_routes : List Route
unfolding route use_guard
admin_routes = route "/api/admin" (
    use_guard auth (
      on get "/dashboard" dashboard_summary
      ∷ on get "/audit" get_audit_log
      ∷ on post "/reset-password" reset_password
      ∷ use_guard admin (
          on get "/audit/verify" verify_audit_chain
          ∷ on post "/config/export" export_config
          ∷ on post "/config/import" import_config
          ∷ on get "/app-config" get_app_config
          ∷ on put "/app-config" update_app_config
          ∷ on post "/toggle-2fa" toggle_2fa
          ∷ [])))

unfoldable pub websocket_routes : List Route
websocket_routes =
    on get "/ws/logs/{id}" handle_log_stream
    ∷ on get "/ws/terminal/{id}" handle_terminal
    ∷ on get "/ws/gs-terminal/{id}" handle_gs_terminal
    ∷ on get "/ws/gs-logs/{id}" handle_gs_logs
    ∷ []

-- the last route is that of the built frontend, or of the note that it is not built
unfoldable pub routes : Bool → List Route
unfolding auth_routes server_routes admin_routes websocket_routes
routes built =
    on get "/api/health" health
    ∷ (auth_routes
        ++ (server_routes
            ++ (admin_routes
                ++ (websocket_routes
                    ++ on get (elim built [ true ↦ "/*" | false ↦ "/" ]) frontend ∷ []))))

-- a handler behind its middleware, the outermost first
unfoldable pub serve_guarded : External → Config → String → List Guard → Handler → Handler
serve_guarded x c header [] next = next
serve_guarded x c header (auth ∷ rest) next =
    auth_middleware x c header (serve_guarded x c header rest next)
serve_guarded x c header (admin ∷ rest) next = admin_middleware (serve_guarded x c header rest next)

-- a request that the router has given to a route, with its header Authorization
unfoldable pub serve :
    External → Config → (Endpoint → Handler) → String → Route → Request → Db → Db × Response
serve x c handlers header r = serve_guarded x c header r.guards (handlers r.endpoint)
