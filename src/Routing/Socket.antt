-- ===== src/Routing/Socket.antt =====
-- The messages of a client's web socket (routing/server/websocket.go).
use pufferd.Common.{
  ℕ, String, Bool, List, [], ◌∷◌, true, false, Option, none, some, is_some, if◌then◌else◌, ◌&&◌,
  ltb, lookup,
}
use pufferd.Types.{
  Err, Value, text, truth, Scope, servers_stat, servers_start, servers_stop, servers_install,
  servers_edit_admin, servers_files_get, servers_files_put, FileData, listing, contents, Message,
  stat_message, pong_message, unknown_command, file_error, file_list, file_contents, file_url,
}
use pufferd.Text.{lower_is}
use pufferd.FilePath.{dir}
use pufferd.World.{
  Call, Outside, ret, panic, Go, pure, crash, ◌>>=◌, ◌>>◌, ask, ask_reply, tell, need, deref,
}
use pufferd.Program.Lifecycle.{start, stop, install, kill, is_running}
use pufferd.Program.Files.{get_item, create_folder, delete_item}
use pufferd.Programs.{reload}

-- What `ReadMessage` and the decoding give: an error that ends the loop, a message that is no text, one
-- that is no JSON object, or the fields of an object, without those that are null.
pub data Incoming : Type 0 where
  broken not_text undecodable : Incoming
  fields : List (String × Value) → Incoming

-- `mapping[key].(string)` and `mapping[key].(bool)` with their `ok`, on what the map holds.
abbrev pub as_text : Option Value → Option String
as_text (some (text s)) = some s
as_text _ = none

abbrev pub as_truth : Option Value → Bool
as_truth (some (truth b)) = b
as_truth _ = false

unfoldable pub string_field : String → List (String × Value) → Option String
string_field k mapping = as_text (lookup k mapping)

unfoldable pub flag_field : String → List (String × Value) → Bool
flag_field k mapping = as_truth (lookup k mapping)

abbrev pub write_message : Outside → Message → Go (Unit {0})
write_message o m = tell o (Call.send m)

-- An action on the server behind a check of the scopes; its error is not looked at.
unfoldable pub guarded : Outside → List Scope → Scope → Go (Unit {0}) → Go (Unit {0})
guarded o scopes scope action = if o.contains_scope scopes scope then action else pure tt

abbrev pub ignore : {A : Type 0} → Go A → Go (Unit {0})
ignore m = m >> pure tt

-- `handleGetFile`: the contents themselves or a URL, and behind what `GetItem` gave.
unfoldable pub send_contents : Outside → String → String → String → Bool → Go (Unit {0})
send_contents o path name target true =
    ask_reply o (Call.read_file target) >>= λ copied. write_message o (file_contents copied.0 name)
send_contents o path name target false = write_message o (file_url path name)

unfoldable pub send_item : Outside → String → Bool → Option FileData × Option Err → Go (Unit {0})
send_item o path edit_mode (data', some failed) = write_message o (file_error (o.error_text failed))
send_item o path edit_mode (none, none) = crash
send_item o path edit_mode (some (listing files), none) = write_message o (file_list files path)
send_item o path edit_mode (some (contents name target size), none) = do
  send_contents o path name target (edit_mode && ltb size o.max_ws_download_size)
  tell o (Call.close_file target)

unfoldable pub handle_get_file : Outside → ℕ → String → Bool → Go (Unit {0})
unfolding send_item send_contents
handle_get_file o p path edit_mode = do
  program ← deref p
  found ← get_item o program path
  send_item o path edit_mode found

-- The case "stat".
unfoldable pub on_stat : Outside → ℕ → Go (Unit {0})
on_stat o p = do
  program ← deref p
  e ← need program.environment
  results ← λ w. ret (o.stats w.trace (Call.get_stats e)) w
  failed ← ask o (Call.get_stats e)
  if is_some failed
      then write_message o (stat_message "0" "0")
      else write_message o (stat_message results.0 results.1)

-- The case "console".
unfoldable pub on_console : Outside → ℕ → Option String → Go (Unit {0})
on_console o p none = pure tt
on_console o p (some cmd) = do
  program ← deref p
  (run, _) ← is_running o program
  if run
      then (need program.environment >>= λ e. tell o (Call.execute_in_main_process e cmd))
      else pure tt

-- An action on a file that answers with an error, or with the file at a path.
unfoldable pub answer_with : Outside → ℕ → String → Option Err → Go (Unit {0})
answer_with o p path (some failed) = write_message o (file_error (o.error_text failed))
answer_with o p path none = handle_get_file o p path false

-- The actions of the case "file".
unfoldable pub on_action : Outside → ℕ → List Scope → String → String → Bool → Go (Unit {0})
unfolding guarded
on_action o p scopes action path edit_mode =
    if lower_is action "get"
    then handle_get_file o p path edit_mode
    else if lower_is action "delete"
    then guarded o scopes servers_files_put (do
      program ← deref p
      failed ← delete_item o program path
      answer_with o p (dir path) failed)
    else if lower_is action "create"
    then guarded o scopes servers_files_put
        (do program ← deref p; failed ← create_folder o program path; answer_with o p path failed)
    else pure tt

-- The case "file".
unfoldable pub on_file : Outside → ℕ → List Scope → List (String × Value) → Go (Unit {0})
unfolding guarded
on_file o p scopes mapping =
    guarded o scopes servers_files_get (elim (string_field "action" mapping) [
      | none ↦ pure tt
      | some action ↦ elim (string_field "path" mapping) [
        | none ↦ pure tt
        | some path ↦ on_action o p scopes action path (flag_field "edit" mapping)
      ]
    ])

-- The switch over the type of a message.
unfoldable pub on_type : Outside → ℕ → List Scope → String → List (String × Value) → Go (Unit {0})
on_type o p scopes message mapping =
    if lower_is message "stat"
    then guarded o scopes servers_stat (on_stat o p)
    else if lower_is message "start"
    then guarded o scopes servers_start (deref p >>= λ program. ignore (start o program))
    else if lower_is message "stop"
    then guarded o scopes servers_stop (deref p >>= λ program. ignore (stop o program))
    else if lower_is message "install"
    then guarded o scopes servers_install (deref p >>= λ program. ignore (install o program))
    else if lower_is message "kill"
    then guarded o scopes servers_stop (deref p >>= λ program. ignore (kill o program))
    else if lower_is message "reload"
    then guarded o scopes servers_edit_admin
        (deref p >>= λ program. ignore (reload o program.identifier))
    else if lower_is message "ping"
    then write_message o pong_message
    else if lower_is message "console"
    then on_console o p (string_field "command" mapping)
    else if lower_is message "file"
    then on_file o p scopes mapping
    else write_message o unknown_command

-- One message that was read; an object whose type is no text is only logged.
unfoldable pub on_message : Outside → ℕ → List Scope → List (String × Value) → Go (Unit {0})
on_message o p scopes mapping = elim (string_field "type" mapping) [
  | none ↦ pure tt
  | some message ↦ on_type o p scopes message mapping
]

-- The loop, over what the connection delivers.
unfoldable pub listen : Outside → ℕ → List Scope → List Incoming → Go (Unit {0})
listen o p scopes [] = pure tt
listen o p scopes (broken ∷ incoming) = pure tt
listen o p scopes (not_text ∷ incoming) = listen o p scopes incoming
listen o p scopes (undecodable ∷ incoming) = listen o p scopes incoming
listen o p scopes (fields mapping ∷ incoming) =
    on_message o p scopes mapping >> listen o p scopes incoming

-- A deferred `recover`: a panic ends the function, not the daemon.
unfoldable pub recovered : Go (Unit {0}) → Go (Unit {0})
recovered m w = elim (m w) [ ret _ v ↦ ret tt v | panic v ↦ ret tt v ]

-- `listenOnSocket`.
unfoldable pub listen_on_socket : Outside → ℕ → List Scope → List Incoming → Go (Unit {0})
unfolding listen recovered
listen_on_socket o p scopes incoming = recovered (listen o p scopes incoming)
