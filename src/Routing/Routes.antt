-- ===== src/Routing/Routes.antt =====
-- The routes of routing/server/server.go, each with the scope and the handler that it is registered with.
-- Which route a request takes is the router's: the route is given. The answers to OPTIONS and CONNECT are
-- left out, they are constants.
use pufferd.Common.{ℕ, String, Bool, List, [], ◌∷◌, true, false, Option, none, some}
use pufferd.Types.{Err, Response, status, failure, server_data_admin, Scope}
use pufferd.World.{Outside, Go, pure, need, ◌>>=◌}
use pufferd.Auth.{Authority, Credentials, Verdict, refused, granted, guard}
use pufferd.Routing.Handlers.{
  Request, Task, start_server, stop_server, kill_server, create_handler, delete_server,
  install_server, edit_server, edit_server_admin, reload_server, get_server, get_file, put_file,
  delete_file, post_console, get_stats, get_logs, get_status, open_socket,
}

pub data Handler : Type 0 where
  on_create on_delete on_get_admin on_edit_admin on_get on_edit on_reload : Handler
  on_start on_stop on_kill on_install on_get_file on_put_file on_delete_file : Handler
  not_implemented on_logs on_console on_stats on_status on_socket : Handler

pub record Route : Type 0 where
  pub method : String
  pub path : String
  pub scope : Scope
  pub require_server : Bool
  pub handler : Handler

abbrev route : String → String → Scope → Bool → Handler → Route
route m p s r h = record { method = m; path = p; scope = s; require_server = r; handler = h }

-- `RegisterRoutes`, in its order.
unfoldable pub register_routes : List Route
register_routes =
    route "PUT" "/server/:id" Scope.servers_create false on_create
    ∷ route "DELETE" "/server/:id" Scope.servers_delete true on_delete
    ∷ route "GET" "/server/:id" Scope.servers_edit_admin true on_get_admin
    ∷ route "POST" "/server/:id" Scope.servers_edit_admin true on_edit_admin
    ∷ route "GET" "/server/:id/data" Scope.servers_edit true on_get
    ∷ route "POST" "/server/:id/data" Scope.servers_edit true on_edit
    ∷ route "POST" "/server/:id/reload" Scope.servers_edit_admin true on_reload
    ∷ route "POST" "/server/:id/start" Scope.servers_start true on_start
    ∷ route "POST" "/server/:id/stop" Scope.servers_stop true on_stop
    ∷ route "POST" "/server/:id/kill" Scope.servers_stop true on_kill
    ∷ route "POST" "/server/:id/install" Scope.servers_install true on_install
    ∷ route "GET" "/server/:id/file/*filename" Scope.servers_files_get true on_get_file
    ∷ route "PUT" "/server/:id/file/*filename" Scope.servers_files_put true on_put_file
    ∷ route "DELETE" "/server/:id/file/*filename" Scope.servers_files_put true on_delete_file
    ∷ route "POST" "/server/:id/file/*filename" Scope.servers_files_put true not_implemented
    ∷ route "GET" "/server/:id/console" Scope.servers_console true on_logs
    ∷ route "POST" "/server/:id/console" Scope.servers_console_send true on_console
    ∷ route "GET" "/server/:id/stats" Scope.servers_stat true on_stats
    ∷ route "GET" "/server/:id/status" Scope.servers_stat true on_status
    ∷ route "GET" "/socket/:id" Scope.servers_console true on_socket
    ∷ route "POST" "/server" Scope.servers_create false on_create
    ∷ []

-- What a request comes to: an answer, and what is left to a goroutine.
abbrev pub Answer : Type 0
Answer = Response × Option Task

abbrev pub alone : Go Response → Go Answer
alone m = m >>= λ r. pure (r, none)

-- `GetServerAdmin`, whose assertion never holds of what the guard has stored: its server is nil.
unfoldable pub get_server_admin : Go Response
unfolding pure
get_server_admin = pure (server_data_admin none)

-- A handler, behind the guard; the library's answer to a route that is not implemented is given. A handler
-- of a server panics without one.
unfoldable pub run_handler :
    Outside → Response → Handler → List Scope → Option ℕ → Request → Go Answer
unfolding get_server_admin
run_handler o missing on_create scopes server r = alone (create_handler o r)
run_handler o missing not_implemented scopes server r = pure (missing, none)
run_handler o missing handler scopes server r = need server >>= λ p. on_server handler p
  where
    on_server : Handler → ℕ → Go Answer
    on_server on_delete p = alone (delete_server o p r)
    on_server on_get_admin p = alone get_server_admin
    on_server on_edit_admin p = alone (edit_server_admin o p r)
    on_server on_get p = alone (get_server o p r)
    on_server on_edit p = alone (edit_server o p r)
    on_server on_reload p = alone (reload_server o p r)
    on_server on_start p = start_server o p r
    on_server on_stop p = alone (stop_server o p r)
    on_server on_kill p = alone (kill_server o p r)
    on_server on_install p = install_server o p r
    on_server on_get_file p = alone (get_file o p r)
    on_server on_put_file p = alone (put_file o p r)
    on_server on_delete_file p = alone (delete_file o p r)
    on_server on_logs p = alone (get_logs o p r)
    on_server on_console p = alone (post_console o p r)
    on_server on_stats p = alone (get_stats o p r)
    on_server on_status p = alone (get_status o p r)
    on_server on_socket p = open_socket o p scopes r
    on_server on_create p = alone (create_handler o r)
    on_server not_implemented p = pure (missing, none)

-- The answer to a request that the guard has turned away.
abbrev pub turned_away : ℕ → Option Err → Response
turned_away code none = status code
turned_away code (some e) = failure code e

-- A request on a route: the guard, and then the handler.
unfoldable pub decide :
    Outside → Response → Route → Request → Verdict × Option ℕ → Go (Answer × Option ℕ)
unfolding run_handler
decide o missing t r (refused code e, kept) = pure ((turned_away code e, none), kept)
decide o missing t r (granted scopes server, kept) =
    run_handler o missing t.handler scopes server r >>= λ answer. pure (answer, kept)

unfoldable pub serve :
    Outside
    → Authority
    → Response
    → Route
    → Credentials
    → Option ℕ
    → Request
    → Go (Answer × Option ℕ)
unfolding decide
serve o a missing t c kept r = guard o a t.scope t.require_server c kept >>= decide o missing t r
