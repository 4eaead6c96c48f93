-- ===== src/Environments/Standard.antt =====
-- environments/impl/standard/standard.go.
use pufferd.Common.{
  ℕ, ◌+◌, ◌-◌, String, Bool, List, [], ◌∷◌, true, false, Option, none, some, if◌then◌else◌, not,
  ltb,
}
use pufferd.Types.{Err, process_running, server_offline}
use pufferd.Text.{◌<>◌}
use pufferd.Environments.{
  Main, nothing, unstarted, started, Callback, System, runs, notify, Launch, no_pipe, no_start,
  start, write_stdin, kill_process, signal, measure, Done, pid_of,
}

-- `IsRunning`, which gives no error.
unfoldable pub is_running : System → Bool
is_running s = runs s.main s.alive

-- `standardExecuteAsync` up to `Wait.Wait()`: the error, or the call that goes on.
unfoldable pub check : Callback → System → Option Err × System
unfolding is_running
check callback s =
    if is_running s
    then (some process_running, s)
    else (none, record s { checked = callback ∷ s.checked })

-- The rest behind `Wait.Wait()`, of the call that goes on with others behind it.
unfoldable pub launch : Launch → Callback → List Callback → System → Option Err × System
launch (no_pipe e) callback rest s =
    (some e, record s { passed = rest; wait = s.wait + 1; main = unstarted })
launch (no_start e) callback rest s =
    (some e, record s { passed = rest; wait = s.wait + 1; main = unstarted; std_in = true })
launch (start pid) callback rest s = (
  none,
  record s {
    passed = rest;
    wait = s.wait + 1;
    main = started pid;
    std_in = true;
    attending = (pid, callback) ∷ s.attending;
    alive = pid ∷ s.alive;
  },
)

-- `handleClose` up to `Wait.Done()`, with the other goroutines.
unfoldable pub reap : ℕ → Callback → List (ℕ × Callback) → System → System
reap pid callback rest s = record s {
  attending = rest;
  wait = s.wait - 1;
  ending = (pid, callback) ∷ s.ending;
}

-- The callbacks of a goroutine's rest: one with `false` where there is no command, where `Wait` gave an error
-- or where the command, a newer one, has no `ProcessState` yet (`wait_ok` is false for both), and then one with
-- the outcome. Only the second is guarded: `none` is the panic at a nil callback.
unfoldable pub call_twice : Callback → List (ℕ × Bool) → Option (List (ℕ × Bool))
call_twice none calls = none
call_twice (some p) calls = some ((p, false) ∷ (p, false) ∷ calls)

unfoldable pub tell : Main → Bool → Bool → Callback → List (ℕ × Bool) → Option (List (ℕ × Bool))
unfolding call_twice
tell nothing wait_ok success callback calls = call_twice callback calls
tell _ false success callback calls = call_twice callback calls
tell _ true success callback calls = some (notify callback success calls)

-- The rest of `handleClose`: a panic ends the daemon.
unfoldable pub finish : Bool → Bool → Callback → List (ℕ × Callback) → System → Option System
unfolding tell
finish wait_ok success callback rest s = elim (tell s.main wait_ok success callback s.calls) [
  | none ↦ none
  | some calls ↦ some (record s { ending = rest; main = nothing; std_in = false; calls = calls })
]

-- `ExecuteInMainProcess`, `Kill`, `GetStats` and `SendCode`, by the answer of the system.
unfoldable pub execute_in_main_process : Option Err → String → System → Done
unfolding is_running
execute_in_main_process answer cmd s =
    if not (is_running s)
    then (some server_offline, [])
    else (answer, write_stdin (cmd <> "\n") ∷ [])

unfoldable pub kill : Option Err → System → Done
unfolding is_running
kill answer s =
    if not (is_running s) then (none, []) else (answer, kill_process (pid_of s.main) ∷ [])

unfoldable pub get_stats : Option Err → System → Done
unfolding is_running
get_stats answer s =
    if not (is_running s) then (some server_offline, []) else (answer, measure (pid_of s.main) ∷ [])

unfoldable pub send_code : Option Err → ℕ → System → Done
unfolding is_running
send_code answer code s =
    if not (is_running s) then (none, []) else (answer, signal (pid_of s.main) code ∷ [])

-- `WaitForMainProcessFor`: whether it waits, and behind how many milliseconds it kills.
unfoldable pub wait_for_main_process_for : ℕ → System → Bool × Option ℕ
unfolding is_running
wait_for_main_process_for timeout s =
    if not (is_running s)
    then (false, none)
    else if ltb 0 timeout
    then (true, some timeout)
    else (true, none)

unfoldable pub wait_for_main_process : System → Bool × Option ℕ
unfolding wait_for_main_process_for
wait_for_main_process s = wait_for_main_process_for 0 s
