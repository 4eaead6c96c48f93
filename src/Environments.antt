-- ===== src/Environments.antt =====
-- environments: the environments that run a server's process on the daemon's own machine
-- (environments/impl/standard, environments/impl/tty), one environment at a time. The operating system is
-- part of the state: the processes that run.
pub mod Base
pub mod Listening
pub mod Lxd
pub mod Loader
pub mod Kinds
pub mod Docker
pub mod Standard
pub mod Tty
pub mod Steps
pub mod Single
pub mod Orphan
pub mod Stuck
pub mod Crash
use pufferd.Common.{
  ℕ, suc, ◌+◌, ◌-◌, String, Bool, List, [], ◌∷◌, true, false, Option, none, some, if◌then◌else◌,
  nat_beq,
}
use pufferd.Types.{Err, process_running, server_offline}

-- `mainProcess`: nil, a command whose process did not start, or one with a process, by its number.
pub data Main : Type 0 where
  nothing unstarted : Main
  started : ℕ → Main

-- The callback of a call, by the pointer of its server; `none` is nil.
abbrev pub Callback : Type 0
Callback = Option ℕ

-- An environment and its processes. `wait` is the counter of the wait group. A call of `ExecuteAsync` is
-- `checked` behind its first test and `passed` behind `Wait.Wait()`; a goroutine of `handleClose` is
-- `attending` its process, and `ending` behind `Wait.Done()`. `calls` are the callbacks made, newest
-- first.
pub record System : Type 0 where
  pub main : Main
  pub std_in : Bool
  pub wait : ℕ
  pub checked : List Callback
  pub passed : List Callback
  pub attending : List (ℕ × Callback)
  pub ending : List (ℕ × Callback)
  pub alive : List ℕ
  pub calls : List (ℕ × Bool)

abbrev pub has : ℕ → List ℕ → Bool
has n [] = false
has n (m ∷ ms) = if nat_beq m n then true else has n ms

abbrev pub drop_all : ℕ → List ℕ → List ℕ
drop_all n [] = []
drop_all n (m ∷ ms) = let rest = drop_all n ms in if nat_beq m n then rest else m ∷ rest

-- Whether a command has a process that answers the signal 0.
abbrev pub runs : Main → List ℕ → Bool
runs nothing alive = false
runs unstarted alive = false
runs (started pid) alive = has pid alive

-- `callback(graceful)`, where there is one.
abbrev pub notify : Callback → Bool → List (ℕ × Bool) → List (ℕ × Bool)
notify none graceful calls = calls
notify (some p) graceful calls = (p, graceful) ∷ calls

-- What starting a command comes to: no pipe, no process, or a process. The error of a start is none of a
-- process that has exited, whose text the code lets pass.
pub data Launch : Type 0 where
  no_pipe no_start : Err → Launch
  start : ℕ → Launch

-- What an operation does to the process.
pub data Action : Type 0 where
  write_stdin : String → Action
  kill_process : ℕ → Action
  signal : ℕ → ℕ → Action
  measure : ℕ → Action

-- An operation's error, and its action with the process it is on.
abbrev pub Done : Type 0
Done = Option Err × List Action

-- The number of the process that runs.
abbrev pub pid_of : Main → ℕ
pid_of nothing = 0
pid_of unstarted = 0
pid_of (started pid) = pid
