-- ===== src/Routing/Listened.antt =====
-- The messages of a web socket, and what a handler leaves to a goroutine (routing/server/websocket.go, server.go).
use pufferd.Common.{
  ℕ, String, Bool, List, [], ◌∷◌, true, false, Option, none, some, is_some, ◌&&◌, ltb,
}
use pufferd.Types.{Err, Program, Scope, servers_files_put, Value, FileData, listing, contents}
use pufferd.Text.{lower_is}
use pufferd.FilePath.{dir}
use pufferd.World.{World, Outside, Outcome, ret, panic, Go, pure, final, ◌>>=◌, ◌>>◌, deref}
use pufferd.World.Keeps.{
  Keeps, Keeps-pure, Keeps-crash, Keeps-bind, Keeps-then, Keeps-if, Keeps-option, Keeps-need,
  Keeps-read, Keeps-ask_reply,
}
use pufferd.Program.Keeps.{is_running-Keeps, start-Keeps, stop-Keeps}
use pufferd.Program.Holds.{
  kill-Keeps, install-Keeps, get_item-Keeps, create_folder-Keeps, delete_item-Keeps,
}
use pufferd.Programs.Names.{Closed, ask-Closed, tell-Closed, deref-Closed, reload-Closed}
use pufferd.Routing.Socket.{
  Incoming, broken, not_text, undecodable, fields, guarded, on_type, on_message, on_console,
  on_stat, on_action, answer_with, send_item, send_contents, handle_get_file, on_file, listen,
  recovered, listen_on_socket, string_field,
}
use pufferd.Routing.Handlers.{Task, start_later, install_later, listen_later, run_task}

module _ {I : World → Type 0} (c : Closed I) (o : Outside) where
  -- A method of the server whose error is not looked at.
  ignored :
      (p : ℕ) {act : Program → Go (Option Err)}
      → ((program : Program) → Keeps I (act program))
      → Keeps I (deref p >>= λ program. act program >> pure tt)
  ignored p acts = deref-Closed c o p λ program _. Keeps-then (acts program) (Keeps-pure tt)

  send_item-Closed :
      (path : String) (edit_mode : Bool) (found : Option FileData × Option Err)
      → Keeps I (send_item o path edit_mode found)
  unfolding send_item send_contents
  send_item-Closed path edit_mode (found, some failed) = tell-Closed c o _
  send_item-Closed path edit_mode (none, none) = Keeps-crash
  send_item-Closed path edit_mode (some (listing files), none) = tell-Closed c o _
  send_item-Closed path edit_mode (some (contents name target size), none) =
      Keeps-then (sent (edit_mode && ltb size o.max_ws_download_size)) (tell-Closed c o _)
    where
      sent : (small : Bool) → Keeps I (send_contents o path name target small)
      sent true =
          Keeps-bind (Keeps-ask_reply I o (λ _. Unit {0}) (λ x w _. c.calls x w) _ tt)
            λ copied. tell-Closed c o _
      sent false = tell-Closed c o _

  handle_get_file-Closed :
      (p : ℕ) (path : String) (edit_mode : Bool) → Keeps I (handle_get_file o p path edit_mode)
  unfolding handle_get_file
  handle_get_file-Closed p path edit_mode = deref-Closed c o p λ program _.
      Keeps-bind (get_item-Keeps o c.calls program path)
        λ found. send_item-Closed path edit_mode found

  on_stat-Closed : (p : ℕ) → Keeps I (on_stat o p)
  unfolding on_stat
  on_stat-Closed p = deref-Closed c o p λ program _.
      Keeps-bind (Keeps-need program.environment) λ e. Keeps-bind (Keeps-read _) λ results.
        Keeps-bind (ask-Closed c o _)
          λ failed. Keeps-if (is_some failed) (tell-Closed c o _) (tell-Closed c o _)

  on_console-Closed : (p : ℕ) (cmd : Option String) → Keeps I (on_console o p cmd)
  unfolding on_console
  on_console-Closed p none = Keeps-pure tt
  on_console-Closed p (some cmd) = deref-Closed c o p λ program _.
      Keeps-bind (is_running-Keeps o c.calls program) λ (run, failed).
        Keeps-if run (Keeps-bind (Keeps-need program.environment) λ e. tell-Closed c o _)
          (Keeps-pure tt)

  guarded-Closed :
      (scopes : List Scope) (s : Scope) {action : Go (Unit {0})}
      → Keeps I action
      → Keeps I (guarded o scopes s action)
  unfolding guarded
  guarded-Closed scopes s h = Keeps-if _ h (Keeps-pure tt)

  answer_with-Closed :
      (p : ℕ) (path : String) (failed : Option Err) → Keeps I (answer_with o p path failed)
  unfolding answer_with
  answer_with-Closed p path (some failed) = tell-Closed c o _
  answer_with-Closed p path none = handle_get_file-Closed p path false

  on_action-Closed :
      (p : ℕ) (scopes : List Scope) (action path : String) (edit_mode : Bool)
      → Keeps I (on_action o p scopes action path edit_mode)
  unfolding on_action
  on_action-Closed p scopes action path edit_mode =
      Keeps-if (lower_is action "get") (handle_get_file-Closed p path edit_mode) (
        Keeps-if (lower_is action "delete")
          (guarded-Closed scopes servers_files_put (
            changed (λ program. delete_item-Keeps o c.calls program path)
              (answer_with-Closed p (dir path))))
          (Keeps-if (lower_is action "create")
            (guarded-Closed scopes servers_files_put (
              changed (λ program. create_folder-Keeps o c.calls program path)
                (answer_with-Closed p path)))
            (Keeps-pure tt)))
    where
      changed :
          {act : Program → Go (Option Err)} {answer : Option Err → Go (Unit {0})}
          → ((program : Program) → Keeps I (act program))
          → ((failed : Option Err) → Keeps I (answer failed))
          → Keeps I (deref p >>= λ program. act program >>= answer)
      changed acts answers = deref-Closed c o p λ program _. Keeps-bind (acts program) answers

  on_file-Closed :
      (p : ℕ) (scopes : List Scope) (mapping : List (String × Value))
      → Keeps I (on_file o p scopes mapping)
  unfolding on_file
  on_file-Closed p scopes mapping = guarded-Closed scopes _ (
      Keeps-option (string_field "action" mapping) (Keeps-pure tt) λ action.
        Keeps-option (string_field "path" mapping) (Keeps-pure tt)
          λ path. on_action-Closed p scopes action path _)

  on_type-Closed :
      (p : ℕ) (scopes : List Scope) (message : String) (mapping : List (String × Value))
      → Keeps I (on_type o p scopes message mapping)
  unfolding on_type
  on_type-Closed p scopes message mapping =
      Keeps-if (lower_is message "stat") (guarded-Closed scopes _ (on_stat-Closed p)) (
        Keeps-if (lower_is message "start")
          (guarded-Closed scopes _ (ignored p (start-Keeps o c.calls)))
          (Keeps-if (lower_is message "stop")
            (guarded-Closed scopes _ (ignored p (stop-Keeps o c.calls)))
            (Keeps-if (lower_is message "install")
              (guarded-Closed scopes _ (ignored p (install-Keeps o c.calls)))
              (Keeps-if (lower_is message "kill")
                (guarded-Closed scopes _ (ignored p (kill-Keeps o c.calls)))
                (Keeps-if (lower_is message "reload")
                  (guarded-Closed scopes _
                    (ignored p (λ program. reload-Closed c o program.identifier)))
                  (Keeps-if (lower_is message "ping") (tell-Closed c o _) (
                    Keeps-if (lower_is message "console") (on_console-Closed p _) (
                      Keeps-if (lower_is message "file") (on_file-Closed p scopes mapping)
                        (tell-Closed c o _)))))))))

  listen-Closed :
      (p : ℕ) (scopes : List Scope) (incoming : List Incoming)
      → Keeps I (listen o p scopes incoming)
  unfolding listen on_message
  listen-Closed p scopes [] = Keeps-pure tt
  listen-Closed p scopes (broken ∷ incoming) = Keeps-pure tt
  listen-Closed p scopes (not_text ∷ incoming) = listen-Closed p scopes incoming
  listen-Closed p scopes (undecodable ∷ incoming) = listen-Closed p scopes incoming
  listen-Closed p scopes (fields mapping ∷ incoming) =
      Keeps-then
        (Keeps-option (string_field "type" mapping) (Keeps-pure tt)
          (λ message. on_type-Closed p scopes message mapping))
        (listen-Closed p scopes incoming)

  recovered-Closed : (m : Go (Unit {0})) → Keeps I m → Keeps I (recovered m)
  unfolding recovered
  recovered-Closed m h = record { at = λ w i. same (m w) (h.at w i) }
    where
      same :
          (r : Outcome (Unit {0}))
          → I (final r)
          → I (
              final
                (elim r as (λ _. Outcome (Unit {0})) [ ret _ v ↦ ret tt v | panic v ↦ ret tt v ]))
      same (ret x v) i = i
      same (panic v) i = i

  pub run_task-Closed :
      (incoming : List Incoming) (task : Task) → Keeps I (run_task o incoming task)
  unfolding run_task listen_on_socket
  run_task-Closed incoming (start_later p) = ignored p (start-Keeps o c.calls)
  run_task-Closed incoming (install_later p) = ignored p (install-Keeps o c.calls)
  run_task-Closed incoming (listen_later p scopes) =
      recovered-Closed _ (listen-Closed p scopes incoming)
