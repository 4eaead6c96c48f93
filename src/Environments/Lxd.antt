-- ===== src/Environments/Lxd.antt =====
-- environments/impl/lxd/lxd.go, which no kind of environment uses on Linux. What the container server answers
-- to each call is given.
use pufferd.Common.{
  ℕ, ◌+◌, ◌-◌, Bool, List, [], ◌∷◌, true, false, Option, none, some, is_some, if◌then◌else◌, not,
  ltb,
}
use pufferd.Types.{Err, server_offline, container_running, Result, ok, err}
use pufferd.Environments.{Callback, notify}

-- `lxc`: whether there is a connection, the counter of the wait group, the goroutines, and the callbacks made.
pub record Lxc : Type 0 where
  pub connection : Bool
  pub wait : ℕ
  pub attending : List Callback
  pub told : List (ℕ × Bool)

-- The answers of the server: the connection, a container's state, and the errors of the operations, of the
-- request and of waiting for it.
pub record Answers : Type 0 where
  pub connected : Option Err
  pub status : Result Bool
  pub found : Option Err
  pub created : Option Err
  pub create_waited : Option Err
  pub updated : Option Err
  pub update_waited : Option Err
  pub executed : Option Err

unfoldable pub get_connection : Answers → Lxc → Option Err × Lxc
get_connection a l =
    if l.connection
    then (none, l)
    else (a.connected, record l { connection = not (is_some a.connected) })

-- `IsRunning`: an error of the state means that the container is not there.
unfoldable pub state_of : Result Bool → Bool
state_of (ok running) = running
state_of (err e) = false

unfoldable pub is_running : Answers → Lxc → (Bool × Option Err) × Lxc
unfolding get_connection state_of
is_running a l =
    let (e, s) = get_connection a l in
    if is_some e then ((false, e), s) else ((state_of a.status, none), s)

-- The first error of some calls in a row.
unfoldable pub first_error : List (Option Err) → Option Err
first_error [] = none
first_error (none ∷ rest) = first_error rest
first_error (some e ∷ rest) = some e

-- Making the container, where it is not there.
unfoldable pub make_container : Answers → Option Err
unfolding first_error
make_container a = if is_some a.found then first_error (a.created ∷ a.create_waited ∷ []) else none

-- The part of `executeAsync` behind `wait.Add(1)`: the container, its start and the command.
unfoldable pub launch_container : Answers → Callback → Lxc → Option Err × Lxc
unfolding make_container first_error
launch_container a callback l =
    let failed = first_error (make_container a ∷ a.updated ∷ a.update_waited ∷ a.executed ∷ []) in
    if is_some failed then (failed, l) else (none, record l { attending = callback ∷ l.attending })

unfoldable pub execute_async : Answers → Callback → Lxc → Option Err × Lxc
unfolding is_running launch_container
execute_async a callback l =
    let ((running, e), s) = is_running a l in
    let launched = launch_container a callback (record s { wait = s.wait + 1 }) in
    if is_some e then (e, s) else if running then (some container_running, s) else launched

-- The goroutine behind the end of the command, with the others: a stop that cannot be asked for is no error.
unfoldable pub finish_async : Answers → Callback → List Callback → Lxc → Lxc
finish_async a callback rest l =
    let internal_error = if is_some a.updated then none else a.update_waited in
    record l {
      wait = l.wait - 1;
      attending = rest;
      told = notify callback (not (is_some internal_error)) l.told;
    }

-- `Kill`, which takes the connection without making it: `none` is the panic without one.
unfoldable pub kill : Answers → Lxc → Option (Option Err)
unfolding first_error
kill a l = if not l.connection then none else some (first_error (a.updated ∷ a.update_waited ∷ []))

-- `ExecuteInMainProcess`: its error, and whether it writes.
unfoldable pub execute_in_main_process : Answers → Lxc → (Option Err × Bool) × Lxc
unfolding is_running
execute_in_main_process a l =
    let ((running, e), s) = is_running a l in
    if is_some e
    then ((e, false), s)
    else if not running
    then ((some server_offline, false), s)
    else ((none, true), s)

-- `WaitForMainProcessFor`: its error, whether it waits, and behind how many milliseconds it kills.
unfoldable pub wait_for_main_process_for : Answers → ℕ → Lxc → (Option Err × Bool × Option ℕ) × Lxc
unfolding is_running
wait_for_main_process_for a timeout l =
    let ((running, e), s) = is_running a l in
    if is_some e
    then ((e, false, none), s)
    else if not running
    then ((none, false, none), s)
    else ((none, true, if ltb 0 timeout then some timeout else none), s)

unfoldable pub wait_for_main_process : Answers → Lxc → (Option Err × Bool × Option ℕ) × Lxc
unfolding wait_for_main_process_for
wait_for_main_process a l = wait_for_main_process_for a 0 l
