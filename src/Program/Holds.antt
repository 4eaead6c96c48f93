-- ===== src/Program/Holds.antt =====
-- Invariants of killing and installing a server, and of its files (programs/program.go), which every call keeps.
use pufferd.Common.{String}
use pufferd.Types.{Program}
use pufferd.World.{Call, World, Outside, record_call}
use pufferd.World.Keeps.{Keeps, Keeps-bind, Keeps-need}
use pufferd.Program.Keeps.{ask_any}
use pufferd.Program.Calls.{kill-stops, install-installs, get_item-looks, on_allowed-Keeps}
use pufferd.Program.Lifecycle.{install, kill, execute}
use pufferd.Program.Files.{get_item, create_folder, open_file, delete_item}

module _ {I : World → Type 0} (o : Outside)
    (keep : (c : Call) (w : World) → I w → I (record_call c w)) where
  pub kill-Keeps : (p : Program) → Keeps I (kill o p)
  kill-Keeps = kill-stops o (λ c w _. keep c w)

  pub install-Keeps : (p : Program) → Keeps I (install o p)
  install-Keeps = install-installs o (λ c w _. keep c w)

  pub execute-Keeps : (p : Program) (command : String) → Keeps I (execute o p command)
  unfolding execute
  execute-Keeps p command = Keeps-bind (Keeps-need p.environment) λ e. ask_any o keep _

  pub get_item-Keeps : (p : Program) (name : String) → Keeps I (get_item o p name)
  get_item-Keeps = get_item-looks o (λ c w _. keep c w)

  pub create_folder-Keeps : (p : Program) (name : String) → Keeps I (create_folder o p name)
  unfolding create_folder
  create_folder-Keeps p name = on_allowed-Keeps o p name Call.mkdir (λ path w. keep _ w)

  pub open_file-Keeps : (p : Program) (name : String) → Keeps I (open_file o p name)
  unfolding open_file
  open_file-Keeps p name = on_allowed-Keeps o p name Call.create_file (λ path w. keep _ w)

  pub delete_item-Keeps : (p : Program) (name : String) → Keeps I (delete_item o p name)
  unfolding delete_item
  delete_item-Keeps p name = on_allowed-Keeps o p name Call.remove_all (λ path w. keep _ w)
