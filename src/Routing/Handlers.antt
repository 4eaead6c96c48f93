-- ===== src/Routing/Handlers.antt =====
-- The handlers of the web interface (routing/server/server.go). A handler gives its answer; what
-- it leaves to a goroutine is a task.
use pufferd.Common.{
  ℕ, String, Bool, List, true, false, Option, none, some, is_some, if◌then◌else◌, not, ◌==◌, ◌||◌,
  ◌&&◌,
}
use pufferd.Types.{
  Err, server_already_exists, illegal_file_access, invalid_unix_time, other, is_not_exist, Result,
  ok, err, Variable, Program, FileData, listing, contents, Response, status, failure, server_id,
  server_data, files, stream, server_stats, server_running, server_logs, Scope, console_message,
}
use pufferd.Text.{join_with}
use pufferd.World.{
  Call, Outside, World, ret, Go, pure, ◌>>=◌, ◌>>◌, ask, ask_names, tell, need, deref, alloc,
}
use pufferd.Program.{zero_program}
use pufferd.Program.Lifecycle.{start, stop, install, kill, is_running, execute}
use pufferd.Program.Files.{get_item, create_folder, open_file, delete_item}
use pufferd.Programs.{get, delete, edit, reload, create_server}
use pufferd.Routing.Socket.{Incoming, listen_on_socket}

-- What a handler reads of its request.
pub record Request : Type 0 where
  pub id : String
  pub wait : Bool
  pub filename : String
  pub folder : Bool
  pub content_type : String
  pub form_error : Option Err
  pub body : String
  pub time : String
  pub upgrade : Option Err

-- What is left to a goroutine.
pub data Task : Type 0 where
  start_later install_later : ℕ → Task
  listen_later : ℕ → List Scope → Task

abbrev pub ignoring : Go (Option Err) → Go (Unit {0})
ignoring m = m >> pure tt

-- A goroutine; what the connection delivers to a socket is given.
unfoldable pub run_task : Outside → List Incoming → Task → Go (Unit {0})
run_task o incoming (start_later p) = deref p >>= λ program. ignoring (start o program)
run_task o incoming (install_later p) = deref p >>= λ program. ignoring (install o program)
run_task o incoming (listen_later p scopes) = listen_on_socket o p scopes incoming

-- `response.HandleError` with an error code, and the status of a success.
abbrev pub answered : ℕ → ℕ → Option Err → Response
answered code good (some failed) = failure code failed
answered code good none = status good

abbrev pub at_once : Response → Response × Option Task
at_once r = (r, none)

-- `StartServer`.
unfoldable pub start_server : Outside → ℕ → Request → Go (Response × Option Task)
start_server o p r =
    if not r.wait
    then pure (status 202, some (start_later p))
    else do program ← deref p; failed ← start o program; pure (at_once (answered 500 204 failed))

-- `StopServer`.
unfoldable pub stop_server : Outside → ℕ → Request → Go Response
stop_server o p r = do
  program ← deref p
  failed ← stop o program
  if is_some failed || not r.wait then pure (answered 500 204 failed) else do
    e ← need program.environment
    unfinished ← ask o (Call.wait_for_main_process e)
    pure (answered 500 204 unfinished)

-- `KillServer`.
unfoldable pub kill_server : Outside → ℕ → Request → Go Response
kill_server o p r = do program ← deref p; failed ← kill o program; pure (answered 500 204 failed)

-- `CreateServer`: the identifier of the request, or a fresh one.
abbrev pub chosen_id : Outside → Request → World → String
chosen_id o r w = if r.id == "" then o.new_uuid w.trace else r.id

abbrev pub created : String → Option Err → Response
created id (some failed) = failure 500 failed
created id none = server_id id

unfoldable pub create_decoded : Outside → String → Result Program → Go Response
create_decoded o id (err e) = pure (failure 400 e)
create_decoded o id (ok program) = do
  p ← alloc (record program { identifier = id })
  failed ← create_server o p
  pure (created id failed)

unfoldable pub create_handler : Outside → Request → Go Response
create_handler o r = do
  id ← λ w. ret (chosen_id o r w) w
  (found, _) ← get o id
  if is_some found
      then pure (failure 409 server_already_exists)
      else create_decoded o id (o.decode zero_program r.body)

-- `DeleteServer`.
unfoldable pub delete_server : Outside → ℕ → Request → Go Response
delete_server o p r = do
  program ← deref p
  failed ← delete o program.identifier
  pure (answered 500 204 failed)

-- `InstallServer`.
unfoldable pub install_server : Outside → ℕ → Request → Go (Response × Option Task)
install_server o p r =
    if not r.wait
    then pure (status 202, some (install_later p))
    else do program ← deref p; failed ← install o program; pure (at_once (answered 500 204 failed))

-- `EditServer` and `EditServerAdmin`, which differ in the override.
unfoldable pub edit_decoded : Outside → ℕ → Bool → Result (List (String × Variable)) → Go Response
edit_decoded o p override_user (err e) = pure (failure 400 e)
edit_decoded o p override_user (ok variables) =
    edit o p variables override_user >>= λ failed. pure (answered 500 204 failed)

unfoldable pub edit_server : Outside → ℕ → Request → Go Response
edit_server o p r = edit_decoded o p false (o.decode_variables r.body)

unfoldable pub edit_server_admin : Outside → ℕ → Request → Go Response
edit_server_admin o p r = edit_decoded o p true (o.decode_variables r.body)

-- `ReloadServer`.
unfoldable pub reload_server : Outside → ℕ → Request → Go Response
reload_server o p r = do
  program ← deref p
  failed ← reload o program.identifier
  pure (answered 500 204 failed)

-- `GetServer`.
unfoldable pub get_server : Outside → ℕ → Request → Go Response
get_server o p r = deref p >>= λ program. pure (server_data program.variables)

-- `GetFile`, on what `GetItem` gave.
unfoldable pub file_answer : Outside → Option FileData × Option Err → Response
file_answer o (found, some failed) =
    if is_not_exist (some failed)
    then status 404
    else failure (elim failed [ illegal_file_access ↦ 400 | _ ↦ 500 ]) failed
file_answer o (some (listing descs), none) = files descs
file_answer o (some (contents name target size), none) = stream (o.base_name name) target size
file_answer o (none, none) = failure 500 (other "no file content or file list")

unfoldable pub get_file : Outside → ℕ → Request → Go Response
get_file o p r = do
  program ← deref p
  found ← get_item o program r.filename
  pure (file_answer o found)

-- `PutFile`: a folder, or the body of the request or the form's file.
unfoldable pub put_contents : Outside → Program → Request → Go Response
put_contents o program r = do
  failed ← open_file o program r.filename
  if is_some failed then pure (answered 500 204 failed) else do
    e ← need program.environment
    uncopied ← ask o (Call.copy_body r.body (o.join_path (o.root_directory e) r.filename))
    pure (answered 500 204 uncopied)

unfoldable pub put_file : Outside → ℕ → Request → Go Response
put_file o p r = if r.filename == "" then pure (status 404) else do
  program ← deref p
  if r.folder
      then (create_folder o program r.filename >>= λ failed. pure (answered 500 200 failed))
      else if o.is_multipart r.content_type && is_some r.form_error
      then pure (answered 500 204 r.form_error)
      else put_contents o program r

-- `DeleteFile`.
unfoldable pub delete_file : Outside → ℕ → Request → Go Response
delete_file o p r = do
  program ← deref p
  failed ← delete_item o program r.filename
  pure (answered 500 204 failed)

-- `PostConsole`.
unfoldable pub post_console : Outside → ℕ → Request → Go Response
post_console o p r = do
  program ← deref p
  failed ← execute o program r.body
  pure (answered 500 204 failed)

-- `GetStats`.
unfoldable pub get_stats : Outside → ℕ → Request → Go Response
get_stats o p r = do
  program ← deref p
  e ← need program.environment
  results ← λ w. ret (o.stats w.trace (Call.get_stats e)) w
  failed ← ask o (Call.get_stats e)
  elim failed [ some x ↦ pure (failure 500 x) | none ↦ pure (server_stats results) ]

-- `GetLogs`.
unfoldable pub get_logs : Outside → ℕ → Request → Go Response
get_logs o p r = if not (o.is_int64 r.time) then pure (failure 400 invalid_unix_time) else do
  program ← deref p
  e ← need program.environment
  epoch ← λ w. ret (o.size w.trace (Call.get_console_from e r.time)) w
  (console, _) ← ask_names o (Call.get_console_from e r.time)
  pure (server_logs epoch (join_with "" console))

-- `GetStatus`.
unfoldable pub get_status : Outside → ℕ → Request → Go Response
get_status o p r = do
  program ← deref p
  (running, failed) ← is_running o program
  elim failed [ some x ↦ pure (failure 500 x) | none ↦ pure (server_running running) ]

-- The upgrade of a connection to a web socket, by its error, and what both handlers do behind it.
unfoldable pub with_socket : Outside → ℕ → Request → Option Task → Go (Response × Option Task)
with_socket o p r task = do
  program ← deref p
  if is_some r.upgrade then pure (at_once (answered 500 101 r.upgrade)) else do
    e ← need program.environment
    (console, _) ← ask_names o (Call.get_console e)
    tell o (Call.send (console_message console))
    tell o (Call.add_listener e)
    pure (status 101, task)

-- `OpenSocket`.
unfoldable pub open_socket : Outside → ℕ → List Scope → Request → Go (Response × Option Task)
unfolding with_socket
open_socket o p scopes r = with_socket o p r (some (listen_later p scopes))

-- `GetConsole`, which no route uses.
unfoldable pub get_console : Outside → ℕ → Request → Go (Response × Option Task)
unfolding with_socket
get_console o p r = with_socket o p r none
