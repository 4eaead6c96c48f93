-- ===== src/Environments/Tty.antt =====
-- environments/impl/tty/tty.go.
use pufferd.Common.{
  ℕ, ◌+◌, ◌-◌, String, Bool, List, [], ◌∷◌, true, false, Option, none, some, if◌then◌else◌, not,
  ltb,
}
use pufferd.Types.{Err, process_running, server_offline}
use pufferd.Text.{◌<>◌}
use pufferd.Environments.{
  Main, nothing, unstarted, started, Callback, System, runs, notify, Launch, no_pipe, no_start,
  start, write_stdin, kill_process, signal, measure, Done, pid_of,
}

-- `IsRunning`, which gives no error.
unfoldable pub is_running : System → Bool
is_running s = runs s.main s.alive

-- `ttyExecuteAsync` up to `Wait.Wait()`: the error, or the call that goes on.
unfoldable pub check : Callback → System → Option Err × System
unfolding is_running
check callback s =
    if is_running s
    then (some process_running, s)
    else (none, record s { checked = callback ∷ s.checked })

-- The rest behind `Wait.Wait()`, of the call that goes on with others behind it; no pipe is made of its
-- own.
unfoldable pub launch : Launch → Callback → List Callback → System → Option Err × System
launch (no_pipe e) callback rest s =
    (some e, record s { passed = rest; wait = s.wait + 1; main = unstarted })
launch (no_start e) callback rest s =
    (some e, record s { passed = rest; wait = s.wait + 1; main = unstarted })
launch (start pid) callback rest s = (
  none,
  record s {
    passed = rest;
    wait = s.wait + 1;
    main = started pid;
    std_in = true;
    attending = (pid, callback) ∷ s.attending;
    alive = pid ∷ s.alive;
  },
)

-- Whether the end of the process was a success; `wait_ok` is as for the other kind.
unfoldable pub outcome : Main → Bool → Bool → Bool
outcome nothing wait_ok success = false
outcome _ false success = false
outcome _ true success = success

-- `handleClose`, with the other goroutines.
unfoldable pub handle_close : Bool → Bool → Callback → List (ℕ × Callback) → System → System
unfolding outcome
handle_close wait_ok success callback rest s = record s {
  attending = rest;
  main = nothing;
  wait = s.wait - 1;
  calls = notify callback (outcome s.main wait_ok success) s.calls;
}

-- `ExecuteInMainProcess`, `Kill`, `GetStats` and `SendCode`, by the answer of the system.
unfoldable pub execute_in_main_process : Option Err → String → System → Done
unfolding is_running
execute_in_main_process answer cmd s =
    if not (is_running s)
    then (some server_offline, [])
    else (answer, write_stdin (cmd <> "\n") ∷ [])

unfoldable pub kill : Option Err → System → Done
unfolding is_running
kill answer s =
    if not (is_running s) then (none, []) else (answer, kill_process (pid_of s.main) ∷ [])

unfoldable pub get_stats : Option Err → System → Done
unfolding is_running
get_stats answer s =
    if not (is_running s) then (some server_offline, []) else (answer, measure (pid_of s.main) ∷ [])

unfoldable pub send_code : Option Err → ℕ → System → Done
unfolding is_running
send_code answer code s =
    if not (is_running s) then (none, []) else (answer, signal (pid_of s.main) code ∷ [])

-- `WaitForMainProcessFor`: whether it waits, and behind how many milliseconds it kills.
unfoldable pub wait_for_main_process_for : ℕ → System → Bool × Option ℕ
unfolding is_running
wait_for_main_process_for timeout s =
    if not (is_running s)
    then (false, none)
    else if ltb 0 timeout
    then (true, some timeout)
    else (true, none)

unfoldable pub wait_for_main_process : System → Bool × Option ℕ
unfolding wait_for_main_process_for
wait_for_main_process s = wait_for_main_process_for 0 s
