-- ===== src/Program/Lifecycle.antt =====
-- Starting, stopping, killing, creating, installing and destroying a server (programs/program.go).
use pufferd.Common.{
  ℕ, String, Bool, List, [], ◌∷◌, true, false, Option, none, some, is_some, if◌then◌else◌, not,
  ◌||◌, insert, nat_beq,
}
use pufferd.Types.{Err, server_disabled, is_exist, ok, err, Value, text, Program}
use pufferd.World.{Call, Outside, Go, pure, ◌>>=◌, ◌>>◌, ask, ask_flag, tell, need, report}
use pufferd.Operations.{generate_process}
use pufferd.Operations.Run.{run_process}
use pufferd.Program.{data_to_map, is_enabled}

-- Generate the operations of a section and run them; the error of either step.
unfoldable pub run_section : Outside → Program → ℕ → List Value → String → Go (Option Err)
run_section o p e section message = do
  generated ←
      generate_process o section p.environment (data_to_map p.variables)
        p.execution.environment_variables
  elim generated [
    | err failed ↦ report o e message failed >> pure (some failed)
    | ok ops ↦ run_process o e ops >>= λ result. elim result [
      | some failed ↦ report o e message failed >> pure (some failed)
      | none ↦ pure none
    ]
  ]

-- The values that `Start` puts into the command line.
unfoldable pub start_data : Outside → Program → ℕ → List (String × Value)
start_data o p e = insert "rootDir" (text (o.root_directory e)) (data_to_map p.variables)

-- The last part of `Start`.
unfoldable pub launch : Outside → Program → ℕ → Go (Option Err)
unfolding start_data
launch o p e = do
  failed ← ask o (
      Call.execute_async e p.execution.program_name
        (o.replace_tokens_in_arr p.execution.arguments (start_data o p e))
        (o.replace_tokens_in_map p.execution.environment_variables (start_data o p e))
        (some p.identifier))
  elim failed [
    | some x ↦ report o e " Failed to start server\n" x >> pure (some x)
    | none ↦ pure none
  ]

-- `Start` behind its checks.
unfoldable pub start_stopped : Outside → Program → ℕ → Go (Option Err)
start_stopped o p e = do
  tell o (Call.display e "Starting server\n" [])
  prepared ← run_section o p e p.execution.pre_execution "Error running pre execute\n"
  if is_some prepared then pure prepared else launch o p e

-- `Start`.
unfoldable pub start : Outside → Program → Go (Option Err)
start o p = if not (is_enabled p) then pure (some server_disabled) else do
  e ← need p.environment
  (running, failed) ← ask_flag o (Call.is_running e)
  if running || is_some failed then pure failed else start_stopped o p e

-- How `Stop` asks the process to end.
unfoldable pub stop_call : Program → ℕ → Call
stop_call p e =
    if not (nat_beq p.execution.stop_code 0)
    then Call.send_code e p.execution.stop_code
    else Call.execute_in_main_process e p.execution.stop_command

-- The console lines behind an attempt, and its error.
unfoldable pub conclude : Outside → ℕ → String → String → Option Err → Go (Option Err)
conclude o e bad good (some failed) = report o e bad failed >> pure (some failed)
conclude o e bad good none = tell o (Call.display e good []) >> pure none

-- `Stop`.
unfoldable pub stop : Outside → Program → Go (Option Err)
stop o p = do
  e ← need p.environment
  (running, failed) ← ask_flag o (Call.is_running e)
  if not running || is_some failed then pure failed else do
    result ← ask o (stop_call p e)
    conclude o e "Failed to stop server\n" "Server was told to stop\n" result

-- `Kill`.
unfoldable pub kill : Outside → Program → Go (Option Err)
kill o p = do
  e ← need p.environment
  result ← ask o (Call.kill e)
  conclude o e "Failed to kill server\n" "Server killed\n" result

-- `Create` of a program: its environment is created.
unfoldable pub create : Outside → Program → Go (Option Err)
create o p = do
  e ← need p.environment
  tell o (Call.display e "Allocating server\n" [])
  result ← ask o (Call.create e)
  elim result [
    | some failed ↦ report o e "Failed to create server\n" failed >> pure (some failed)
    | none ↦
        tell o (Call.display e "Server allocated\n" [])
        >> (tell o (Call.display e "Ready to be installed\n" []) >> pure none)
  ]

-- `Destroy`.
unfoldable pub destroy : Outside → Program → Go (Option Err)
destroy o p = do
  e ← need p.environment
  undone ← run_section o p e p.uninstallation "Failed to uninstall server\n"
  if is_some undone then pure undone else do
    result ← ask o (Call.delete e)
    elim result [
      | some failed ↦ report o e "Failed to uninstall server\n" failed >> pure (some failed)
      | none ↦ pure none
    ]

abbrev pub non_empty : List Value → Bool
non_empty [] = false
non_empty (v ∷ vs) = true

-- The last part of `Install`, behind the server's folder: the result is the error of making that
-- folder, which is nil or "exists".
unfoldable pub install_files : Outside → Program → ℕ → Option Err → Go (Option Err)
install_files o p e made = do
  done ←
      if non_empty p.installation
      then run_section o p e p.installation "Failed to install server\n"
      else pure none
  if is_some done then pure done else tell o (Call.display e "Server installed\n" []) >> pure made

-- `Install` behind the check that nothing runs.
unfoldable pub install_stopped : Outside → Program → ℕ → Option Err → Go (Option Err)
install_stopped o p e (some failed) =
    report o e "Failed to stop server\n" failed >> pure (some failed)
install_stopped o p e none = do
  tell o (Call.display e "Installing server\n" [])
  made ← ask o (Call.mkdir_all (o.root_directory e))
  elim made [
    | some failed ↦
        if is_exist (some failed)
        then install_files o p e (some failed)
        else report o e "Failed to create server directory\n" failed >> pure (some failed)
    | none ↦ install_files o p e none
  ]

-- `Install`.
unfoldable pub install : Outside → Program → Go (Option Err)
install o p = if not (is_enabled p) then pure (some server_disabled) else do
  e ← need p.environment
  (running, failed) ← ask_flag o (Call.is_running e)
  if is_some failed
      then tell o (Call.display e "Error on checking to see if server is running\n" [])
        >> pure failed
      else do stopped ← if running then stop o p else pure none; install_stopped o p e stopped

-- `IsRunning` and `Execute`.
unfoldable pub is_running : Outside → Program → Go (Bool × Option Err)
is_running o p = do e ← need p.environment; ask_flag o (Call.is_running e)

unfoldable pub execute : Outside → Program → String → Go (Option Err)
execute o p command = do e ← need p.environment; ask o (Call.execute_in_main_process e command)
