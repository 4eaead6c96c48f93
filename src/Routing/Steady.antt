-- ===== src/Routing/Steady.antt =====
-- The handlers that neither add nor remove a server (routing/server/server.go, websocket.go): what every call,
-- every new object and every write to an object under its identifier keeps, they keep.
use pufferd.Common.{ℕ, String, Bool, List, true, false, Option, some, is_some, not, ◌≡◌}
use pufferd.Types.{Result, ok, err, Program, Response, Scope, Variable}
use pufferd.World.{Call, World, Outside, Go, ◌>>=◌, ask_names, deref}
use pufferd.World.Keeps.{
  Keeps, Keeps-pure, Keeps-bind, Keeps-then, Keeps-if, Keeps-option, Keeps-need, Keeps-read,
  Keeps-ask_names,
}
use pufferd.Program.Keeps.{is_running-Keeps, start-Keeps, stop-Keeps}
use pufferd.Program.Holds.{
  kill-Keeps, execute-Keeps, install-Keeps, get_item-Keeps, create_folder-Keeps, open_file-Keeps,
  delete_item-Keeps,
}
use pufferd.Programs.Names.{
  Closed, ask-Closed, tell-Closed, deref-Closed, edit-Closed, reload-Closed,
}
use pufferd.Routing.Routes.{
  Handler, on_create, on_delete, on_get_admin, on_edit_admin, on_get, on_edit, on_reload, on_start,
  on_stop, on_kill, on_install, on_get_file, on_put_file, on_delete_file, not_implemented, on_logs,
  on_console, on_stats, on_status, on_socket, alone, get_server_admin, run_handler,
}
use pufferd.Routing.Handlers.{
  Request, Task, listen_later, start_server, stop_server, kill_server, install_server, edit_decoded,
  edit_server, edit_server_admin, reload_server, get_server, get_file, put_file, put_contents,
  delete_file, post_console, get_stats, get_logs, get_status, with_socket, open_socket,
}

-- The handlers of a server that neither make nor delete one.
abbrev pub is_steady : Handler → Bool
is_steady on_create = false
is_steady on_delete = false
is_steady _ = true

module _ {I : World → Type 0} (c : Closed I) (o : Outside) where
  names-Closed : (x : Call) → Keeps I (ask_names o x)
  names-Closed x = Keeps-ask_names I o (λ _. Unit {0}) (λ x w _. c.calls x w) x tt

  -- A handler that does one thing to its server, and answers.
  doing :
      {A B : Type 0} (p : ℕ) {act : Program → Go A} {answer : A → Go B}
      → ((program : Program) → Keeps I (act program))
      → ((x : A) → Keeps I (answer x))
      → Keeps I (deref p >>= λ program. act program >>= answer)
  doing p acts answers = deref-Closed c o p λ program _. Keeps-bind (acts program) answers

  start_server-Closed : (p : ℕ) (r : Request) → Keeps I (start_server o p r)
  unfolding start_server
  start_server-Closed p r =
      Keeps-if (not r.wait) (Keeps-pure _) (doing p (start-Keeps o c.calls) (λ x. Keeps-pure _))

  install_server-Closed : (p : ℕ) (r : Request) → Keeps I (install_server o p r)
  unfolding install_server
  install_server-Closed p r =
      Keeps-if (not r.wait) (Keeps-pure _) (doing p (install-Keeps o c.calls) (λ x. Keeps-pure _))

  stop_server-Closed : (p : ℕ) (r : Request) → Keeps I (stop_server o p r)
  unfolding stop_server
  stop_server-Closed p r = deref-Closed c o p λ program _.
      Keeps-bind (stop-Keeps o c.calls program) λ failed. Keeps-if _ (Keeps-pure _) (
        Keeps-bind (Keeps-need program.environment)
          λ e. Keeps-bind (ask-Closed c o _) λ x. Keeps-pure _)

  kill_server-Closed : (p : ℕ) (r : Request) → Keeps I (kill_server o p r)
  unfolding kill_server
  kill_server-Closed p r = doing p (kill-Keeps o c.calls) (λ x. Keeps-pure _)

  edit_decoded-Closed :
      (p : ℕ) (b : Bool) (decoded : Result (List (String × Variable)))
      → Keeps I (edit_decoded o p b decoded)
  unfolding edit_decoded
  edit_decoded-Closed p b (err e) = Keeps-pure _
  edit_decoded-Closed p b (ok variables) =
      Keeps-bind (edit-Closed c o p variables b) λ failed. Keeps-pure _

  reload_server-Closed : (p : ℕ) (r : Request) → Keeps I (reload_server o p r)
  unfolding reload_server
  reload_server-Closed p r =
      doing p (λ program. reload-Closed c o program.identifier) (λ x. Keeps-pure _)

  get_server-Closed : (p : ℕ) (r : Request) → Keeps I (get_server o p r)
  unfolding get_server
  get_server-Closed p r = deref-Closed c o p λ program _. Keeps-pure _

  get_file-Closed : (p : ℕ) (r : Request) → Keeps I (get_file o p r)
  unfolding get_file
  get_file-Closed p r =
      doing p (λ program. get_item-Keeps o c.calls program r.filename) (λ x. Keeps-pure _)

  put_contents-Closed : (program : Program) (r : Request) → Keeps I (put_contents o program r)
  unfolding put_contents
  put_contents-Closed program r =
      Keeps-bind (open_file-Keeps o c.calls program r.filename) λ failed.
        Keeps-if (is_some failed) (Keeps-pure _) (
          Keeps-bind (Keeps-need program.environment)
            λ e. Keeps-bind (ask-Closed c o _) λ x. Keeps-pure _)

  put_file-Closed : (p : ℕ) (r : Request) → Keeps I (put_file o p r)
  unfolding put_file
  put_file-Closed p r = Keeps-if _ (Keeps-pure _) (
      deref-Closed c o p λ program _.
        Keeps-if r.folder
          (Keeps-bind (create_folder-Keeps o c.calls program r.filename) λ x. Keeps-pure _)
          (Keeps-if _ (Keeps-pure _) (put_contents-Closed program r)))

  delete_file-Closed : (p : ℕ) (r : Request) → Keeps I (delete_file o p r)
  unfolding delete_file
  delete_file-Closed p r =
      doing p (λ program. delete_item-Keeps o c.calls program r.filename) (λ x. Keeps-pure _)

  post_console-Closed : (p : ℕ) (r : Request) → Keeps I (post_console o p r)
  unfolding post_console
  post_console-Closed p r =
      doing p (λ program. execute-Keeps o c.calls program r.body) (λ x. Keeps-pure _)

  get_stats-Closed : (p : ℕ) (r : Request) → Keeps I (get_stats o p r)
  unfolding get_stats
  get_stats-Closed p r = deref-Closed c o p λ program _.
      Keeps-bind (Keeps-need program.environment) λ e. Keeps-bind (Keeps-read _) λ results.
        Keeps-bind (ask-Closed c o _)
          λ failed. Keeps-option failed (Keeps-pure _) (λ x. Keeps-pure _)

  get_logs-Closed : (p : ℕ) (r : Request) → Keeps I (get_logs o p r)
  unfolding get_logs
  get_logs-Closed p r = Keeps-if _ (Keeps-pure _) (
      deref-Closed c o p λ program _.
        Keeps-bind (Keeps-need program.environment) λ e.
          Keeps-bind (Keeps-read _) λ epoch. Keeps-bind (names-Closed _) λ console. Keeps-pure _)

  get_status-Closed : (p : ℕ) (r : Request) → Keeps I (get_status o p r)
  unfolding get_status
  get_status-Closed p r = deref-Closed c o p λ program _.
      Keeps-bind (is_running-Keeps o c.calls program)
        λ (running, failed). Keeps-option failed (Keeps-pure _) (λ x. Keeps-pure _)

  with_socket-Closed : (p : ℕ) (r : Request) (task : Option Task) → Keeps I (with_socket o p r task)
  unfolding with_socket
  with_socket-Closed p r task = deref-Closed c o p λ program _. Keeps-if _ (Keeps-pure _) (
      Keeps-bind (Keeps-need program.environment) λ e.
        Keeps-bind (names-Closed _)
          λ console. Keeps-then (tell-Closed c o _) (Keeps-then (tell-Closed c o _) (Keeps-pure _)))

  alone-Closed : {m : Go Response} → Keeps I m → Keeps I (alone m)
  alone-Closed h = Keeps-bind h λ r. Keeps-pure _

  pub run_handler-Closed :
      (missing : Response) (h : Handler) (scopes : List Scope) (server : Option ℕ) (r : Request)
      → is_steady h ≡ true
      → Keeps I (run_handler o missing h scopes server r)
  unfolding run_handler get_server_admin edit_server edit_server_admin open_socket
  run_handler-Closed missing on_create scopes server r s = cc
  run_handler-Closed missing on_delete scopes server r s = cc
  run_handler-Closed missing on_get_admin scopes server r s =
      Keeps-bind (Keeps-need server) λ p. alone-Closed (Keeps-pure _)
  run_handler-Closed missing on_edit_admin scopes server r s =
      Keeps-bind (Keeps-need server) λ p. alone-Closed (edit_decoded-Closed p true _)
  run_handler-Closed missing on_get scopes server r s =
      Keeps-bind (Keeps-need server) λ p. alone-Closed (get_server-Closed p r)
  run_handler-Closed missing on_edit scopes server r s =
      Keeps-bind (Keeps-need server) λ p. alone-Closed (edit_decoded-Closed p false _)
  run_handler-Closed missing on_reload scopes server r s =
      Keeps-bind (Keeps-need server) λ p. alone-Closed (reload_server-Closed p r)
  run_handler-Closed missing on_start scopes server r s =
      Keeps-bind (Keeps-need server) λ p. start_server-Closed p r
  run_handler-Closed missing on_stop scopes server r s =
      Keeps-bind (Keeps-need server) λ p. alone-Closed (stop_server-Closed p r)
  run_handler-Closed missing on_kill scopes server r s =
      Keeps-bind (Keeps-need server) λ p. alone-Closed (kill_server-Closed p r)
  run_handler-Closed missing on_install scopes server r s =
      Keeps-bind (Keeps-need server) λ p. install_server-Closed p r
  run_handler-Closed missing on_get_file scopes server r s =
      Keeps-bind (Keeps-need server) λ p. alone-Closed (get_file-Closed p r)
  run_handler-Closed missing on_put_file scopes server r s =
      Keeps-bind (Keeps-need server) λ p. alone-Closed (put_file-Closed p r)
  run_handler-Closed missing on_delete_file scopes server r s =
      Keeps-bind (Keeps-need server) λ p. alone-Closed (delete_file-Closed p r)
  run_handler-Closed missing not_implemented scopes server r s = Keeps-pure _
  run_handler-Closed missing on_logs scopes server r s =
      Keeps-bind (Keeps-need server) λ p. alone-Closed (get_logs-Closed p r)
  run_handler-Closed missing on_console scopes server r s =
      Keeps-bind (Keeps-need server) λ p. alone-Closed (post_console-Closed p r)
  run_handler-Closed missing on_stats scopes server r s =
      Keeps-bind (Keeps-need server) λ p. alone-Closed (get_stats-Closed p r)
  run_handler-Closed missing on_status scopes server r s =
      Keeps-bind (Keeps-need server) λ p. alone-Closed (get_status-Closed p r)
  run_handler-Closed missing on_socket scopes server r s =
      Keeps-bind (Keeps-need server) λ p. with_socket-Closed p r (some (listen_later p scopes))
