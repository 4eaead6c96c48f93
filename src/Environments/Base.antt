-- ===== src/Environments/Base.antt =====
-- environments/envs/environment.go: what all environments share, the console. A listener's packet is the JSON
-- of a console message with one line; the JSON and the formatting of lines are Go's own libraries.
use pufferd.Common.{ℕ, String, Bool, List, [], ◌∷◌, ◌++◌, Option, none, if◌then◌else◌}
use pufferd.Types.{Err}
use pufferd.Text.{◌<>◌}
use pufferd.World.{Call, Outside, Go, pure, ◌>>=◌, ask}
use pufferd.Sockets.{register, write}

-- The console of a `BaseEnvironment`: what its buffer was given, and its listeners.
pub record Console : Type 0 where
  pub console_buffer : List String
  pub sockets : List ℕ

-- `fmt.Sprintf`, and the JSON that `Write` of the listeners makes of a line.
pub record Formats : Type 0 where
  pub sprintf : String → List String → String
  pub transmission : String → String

-- A line for the console.
pub record Line : Type 0 where
  pub daemon : Bool
  pub msg : String
  pub values : List String

unfoldable pub formatted : Formats → Line → String
formatted f line =
    let format = if line.daemon then "[DAEMON] " <> line.msg else line.msg in
    elim line.values [ [] ↦ format | d ∷ ds ↦ f.sprintf format (d ∷ ds) ]

-- Writing a text to the buffer and to the listeners.
unfoldable pub write_console : Outside → Formats → String → Console → Go Console
unfolding write pure ◌>>=◌
write_console o f line console = write o (f.transmission line) console.sockets >>= λ left.
    pure (record { console_buffer = console.console_buffer ++ line ∷ []; sockets = left })

-- `DisplayToConsole`.
unfoldable pub display_to_console : Outside → Formats → Line → Console → Go Console
unfolding formatted write_console
display_to_console o f line console = write_console o f (formatted f line) console

unfoldable pub display_all : Outside → Formats → List Line → Console → Go Console
unfolding display_to_console pure ◌>>=◌
display_all o f [] console = pure console
display_all o f (line ∷ lines) console =
    display_to_console o f line console >>= display_all o f lines

unfoldable pub add_listener : ℕ → Console → Console
unfolding register
add_listener socket console = record console { sockets = register socket console.sockets }

unfoldable pub get_console : Console → List String
get_console console = console.console_buffer

-- The writer of `CreateWrapper`: what it writes to, in order.
pub data Sink : Type 0 where
  stdout buffer listeners : Sink

unfoldable pub create_wrapper : Bool → List Sink
create_wrapper forward =
    if forward then stdout ∷ buffer ∷ listeners ∷ [] else buffer ∷ listeners ∷ []

-- `Update` and `Delete`.
unfoldable pub update : Option Err
update = none

unfoldable pub delete : Outside → String → Go (Option Err)
delete o root_directory = ask o (Call.remove_all root_directory)
