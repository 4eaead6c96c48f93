-- ===== src/Daemon.antt =====
-- The start and the end of the daemon (entry/entry.go, shutdown/shutdown.go).
pub mod Boot
pub mod Services
pub mod Ends
pub mod Events
pub mod Running
use pufferd.Common.{
  ℕ, String, Bool, List, [], ◌∷◌, true, false, Option, none, some, is_some, if◌then◌else◌, not,
  ◌||◌, ◌&&◌,
}
use pufferd.Types.{Err, is_exist, is_not_exist, Program}
use pufferd.World.{
  Call, Outside, World, Outcome, ret, panic, Go, pure, crash, ◌>>=◌, ◌>>◌, ask, ask_names, tell,
  need, deref,
}
use pufferd.Program.{is_enabled, is_auto_start}
use pufferd.Program.Lifecycle.{stop, is_running}
use pufferd.Programs.{load_from_folder}
use pufferd.Programs.Exit.{init_service, start_via_service, shutdown_service}

-- One server of the loop in `entry`: an enabled one is greeted, and queued if it starts by itself.
unfoldable pub greet : Outside → ℕ → Go (Unit {0})
greet o p = do
  program ← deref p
  if not (is_enabled program) then pure tt else do
    e ← need program.environment
    tell o (Call.display e "Daemon has been started\n" [])
    if not (is_auto_start program) then pure tt else do
      tell o (Call.display e "Server has been queued to start\n" [])
      λ w. ret tt (start_via_service p w)

unfoldable pub greet_all : Outside → List ℕ → Go (Unit {0})
greet_all o [] = pure tt
greet_all o (p ∷ ps) = greet o p >> greet_all o ps

-- `entry` up to its services: the servers' folder, the servers, the start queue.
unfoldable pub prepare_folder : Outside → Option Err → Go (Option Err)
prepare_folder o missing =
    if not (is_not_exist missing) then pure missing else ask o (Call.mkdir_all o.server_folder)

-- Its error, and whether it goes on.
unfoldable pub boot : Outside → Go (Option Err × Bool)
boot o = do
  missing ← ask o (Call.stat o.server_folder)
  failed ← prepare_folder o missing
  if is_not_exist missing && is_some failed && not (is_exist failed)
      then pure (failed, false)
      else do
        load_from_folder o
        λ w. ret tt (init_service w)
        programs ← λ w. ret (w.all_programs) w
        greet_all o programs
        pure (failed, true)

-- What `Shutdown` does for a server.
unfoldable pub shut : Outside → ℕ → Go (Unit {0})
shut o p = do
  program ← deref p
  (running, unknown) ← is_running o program
  if is_some unknown || not running then pure tt else do
    failed ← stop o program
    if is_some failed
        then pure tt
        else do e ← need program.environment; tell o (Call.wait_for_main_process e)

-- A goroutine's deferred `recover`.
unfoldable pub shielded : Go (Unit {0}) → Go (Unit {0})
shielded m w = elim (m w) [ ret _ v ↦ ret tt v | panic v ↦ ret tt v ]

-- The goroutines of `Shutdown`, one behind the other.
unfoldable pub shut_all : Outside → List ℕ → Go (Unit {0})
shut_all o [] = pure tt
shut_all o (p ∷ ps) = shielded (shut o p) >> shut_all o ps

-- `Shutdown`.
unfoldable pub shutdown : Outside → Go (Unit {0})
shutdown o = do
  λ w. ret tt (shutdown_service w)
  programs ← λ w. ret (w.all_programs) w
  shut_all o programs
