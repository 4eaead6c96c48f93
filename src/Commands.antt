-- ===== src/Commands.antt =====
-- The commands that signal a daemon (cmd/shutdown.go, cmd/reload.go). What the operating system answers is
-- given.
use pufferd.Common.{Bool, List, [], ◌∷◌, false, Option, none, some, is_some, if◌then◌else◌, ◌==◌}
use pufferd.Types.{Err, other}

-- `os.FindProcess`: an error, no process, or a process.
pub data Found : Type 0 where
  not_found : Err → Found
  no_process process : Found

-- The errors of the signal and of letting the process go, and the answer to every ping, in order.
pub record Answers : Type 0 where
  pub found : Found
  pub signalled : Option Err
  pub pings : List (Option Err)
  pub released : Option Err

-- Whether an error says that the process has ended, by its text.
unfoldable pub already_finished : Err → Bool
already_finished (other text) = text == "os: process already finished"
already_finished _ = false

-- The goroutine of `waitForProcess`: what it sends first, `none` while every ping is answered.
unfoldable pub wait_for_process : List (Option Err) → Option (Option Err)
unfolding already_finished
wait_for_process [] = none
wait_for_process (none ∷ pings) = wait_for_process pings
wait_for_process (some e ∷ pings) = some (if already_finished e then none else some e)

-- The end of `runShutdown`, behind what it waited for.
unfoldable pub release : Option Err → Option (Option Err) → Option (Option Err)
release released none = none
release released (some (some e)) = some (some e)
release released (some none) = some released

-- `runShutdown`: its error, `none` while it waits.
unfoldable pub run_shutdown : Answers → Option (Option Err)
unfolding wait_for_process release
run_shutdown a = elim a.found [
  | not_found e ↦ some (some e)
  | no_process ↦ some (some (other "no process found"))
  | process ↦
      if is_some a.signalled
      then some a.signalled
      else release a.released (wait_for_process a.pings)
]

-- `runReload`.
unfoldable pub run_reload : Found → Option Err → Option Err
run_reload (not_found e) signalled = some e
run_reload no_process signalled = some (other "no process found")
run_reload process signalled = signalled
