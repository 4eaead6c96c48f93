-- ===== src/Environments/Docker/Container.antt =====
-- The functions of docker.go that a server calls.
use pufferd.Common.{
  ℕ, ◌+◌, ◌-◌, String, Bool, List, ◌∷◌, true, false, Option, none, some, is_some, if◌then◌else◌,
  not, ltb, ◌||◌,
}
use pufferd.Types.{Err, server_offline, container_running, image_downloading}
use pufferd.Text.{◌<>◌}
use pufferd.Environments.Docker.{
  Callback, Engine, done, Run, pure, ◌>>=◌, ◌>>◌, ask, attach, start, stats, read_stats, stop, kill,
  write, mkdir, close_connection, get_client, does_container_exist, is_running, create_container,
}

-- `dockerExecuteAsync` up to `Wait.Wait()`: the error, or `none` where it goes on.
unfoldable pub begin : Engine → Run (Option Err)
unfolding is_running pure ◌>>=◌
begin o = do
  running ← is_running o
  if is_some running.1
      then pure running.1
      else pure (if running.0 then some container_running else none)

-- `Wait.Add(1)` and the start of the goroutine.
unfoldable pub attend : Callback → Run (Unit {0})
attend callback s = done tt (record s { wait = s.wait + 1; attending = callback ∷ s.attending })

unfoldable pub downloading : Run Bool
downloading s = done s.downloading_image s

-- Attaching to the container and starting it.
unfoldable pub attach_start : Engine → Callback → Run (Option Err)
unfolding ask pure attend ◌>>=◌ ◌>>◌
attach_start o callback = do
  e ← ask o attach
  if is_some e then pure e else do attend callback; ask o start

-- The rest of `dockerExecuteAsync` behind `Wait.Wait()`.
unfoldable pub proceed :
    Engine → String → List String → List (String × String) → Callback → Run (Option Err)
unfolding ask pure downloading attach_start get_client does_container_exist create_container ◌>>=◌
    ◌>>◌
proceed o cmd args env callback = do
  busy ← downloading
  if busy then pure (some image_downloading) else do
    get_client o
    exists ← does_container_exist o
    if is_some exists.1 then pure exists.1 else do
      e ← (if exists.0 then pure none else create_container o cmd args env o.root_directory)
      if is_some e then pure e else attach_start o callback

-- The goroutine behind the copy of the output, with the others; the wait group is left before the
-- callback is made.
unfoldable pub leave : List Callback → Callback → Option Err → Run (Unit {0})
leave rest none e s = done tt (record s { wait = s.wait - 1; attending = rest })
leave rest (some p) e s =
    done tt (record s { wait = s.wait - 1; attending = rest; told = (p, not (is_some e)) ∷ s.told })

unfoldable pub close : Engine → List Callback → Callback → Run (Unit {0})
unfolding get_client ask leave pure ◌>>=◌ ◌>>◌
close o rest callback = do
  get_client o
  e ← ask o stop
  leave rest callback e
  ask o close_connection
  pure tt

unfoldable pub execute_in_main_process : Engine → String → Run (Option Err)
unfolding is_running ask pure ◌>>=◌ ◌>>◌
execute_in_main_process o cmd = do
  running ← is_running o
  if is_some running.1 then pure running.1 else do
    if not running.0 then pure (some server_offline) else do ask o (write (cmd <> "\n")); pure none

-- A signal to the container, if it runs.
unfoldable pub signal : Engine → String → Run (Option Err)
unfolding is_running get_client ask pure ◌>>=◌
signal o name = do
  running ← is_running o
  if is_some running.1 || not running.0
      then pure running.1
      else do e ← get_client o; if is_some e then pure e else ask o (kill name)

-- `Kill` and `SendCode`.
unfoldable pub kill_container : Engine → Run (Option Err)
unfolding signal
kill_container o = signal o "SIGKILL"

unfoldable pub send_code : Engine → ℕ → Run (Option Err)
unfolding signal
send_code o code = signal o (o.signal_name code)

unfoldable pub create : Engine → Run (Option Err)
unfolding ask
create o = ask o (mkdir o.root_directory)

-- `GetStats` up to the numbers: the error, if there is one.
unfoldable pub get_stats : Engine → Run (Option Err)
unfolding is_running get_client ask pure ◌>>=◌
get_stats o = do
  running ← is_running o
  if is_some running.1 then pure running.1 else do
    if not running.0 then pure (some server_offline) else do
      e ← get_client o
      if is_some e
          then pure e
          else do e ← ask o stats; if is_some e then pure e else ask o read_stats

-- `WaitForMainProcessFor`: its error, whether it waits, and behind how many milliseconds it kills.
unfoldable pub wait_for_main_process_for : Engine → ℕ → Run (Option Err × Bool × Option ℕ)
unfolding is_running pure ◌>>=◌
wait_for_main_process_for o timeout = do
  running ← is_running o
  if is_some running.1 || not running.0
      then pure (running.1, false, none)
      else pure (none, true, if ltb 0 timeout then some timeout else none)

unfoldable pub wait_for_main_process : Engine → Run (Option Err × Bool × Option ℕ)
unfolding wait_for_main_process_for
wait_for_main_process o = wait_for_main_process_for o 0
