-- ===== src/Program.antt =====
-- programs/program.go: the settings of a server and what is computed from them.
pub mod Lifecycle
pub mod Files
pub mod Edit
pub mod Safety
pub mod Keeps
pub mod Holds
pub mod Calls
pub mod Listing
use pufferd.Common.{
  ℕ, String, Bool, List, [], ◌∷◌, true, false, Option, none, some, if◌then◌else◌, not, ◌&&◌, lookup,
  insert,
}
use pufferd.Types.{Value, text, texts, text_map, items, truth, opaque, Variable, Execution, Program}
use pufferd.Text.{◌<>◌}

-- `CreateProgram`.
unfoldable pub create_program : Program
create_program = record {
  identifier = "";
  kind = "standard";
  display = "Unknown server";
  variables = [];
  nil_variables = false;
  execution = record {
    program_name = "";
    arguments = [];
    stop_command = "";
    stop_code = 0;
    disabled = false;
    auto_start = false;
    auto_restart_from_crash = false;
    auto_restart_from_graceful = false;
    pre_execution = [];
    post_execution = [];
    environment_variables = [];
  };
  installation = [];
  uninstallation = [];
  server_environment = opaque 0;
  crash_counter = 0;
  environment = none;
}

-- `Program{}`.
unfoldable pub zero_program : Program
unfolding create_program
zero_program = record create_program { kind = ""; display = ""; nil_variables = true }

-- `DataToMap`, over the variables in the order of iteration.
unfoldable pub data_to_map : List (String × Variable) → List (String × Value)
data_to_map [] = []
data_to_map ((k, v) ∷ m) = (k, v.value) ∷ data_to_map m

abbrev pub is_enabled : Program → Bool
is_enabled p = not p.execution.disabled

unfoldable pub set_enabled : Bool → Program → Program
set_enabled on p = record p { execution = record (p.execution) { disabled = not on } }

unfoldable pub set_auto_start : Bool → Program → Program
set_auto_start on p = record p { execution = record (p.execution) { auto_start = on } }

unfoldable pub is_auto_start : Program → Bool
is_auto_start p = p.execution.auto_start

-- `CopyFrom`: all but the identifier and the crash counter.
unfoldable pub copy_from : Program → Program → Program
copy_from p s = record p {
  variables = s.variables;
  nil_variables = s.nil_variables;
  execution = s.execution;
  display = s.display;
  environment = s.environment;
  installation = s.installation;
  uninstallation = s.uninstallation;
  kind = s.kind;
}

-- A variable's text, or the default.
unfoldable pub text_or : String → Option Variable → String
text_or d none = d
text_or d (some v) = elim (v.value) [ text s ↦ s | _ ↦ d ]

-- `GetNetwork`.
unfoldable pub get_network : Program → String
unfolding text_or
get_network p =
    text_or "0.0.0.0" (lookup "ip" p.variables) <> ":" <> text_or "0" (lookup "port" p.variables)

-- The entry to be changed: the one at hand, or else the provided one.
abbrev pub kept : Variable → Option Variable → Variable
kept provided none = provided
kept provided (some v) = v

-- One round of the loop of `Edit`.
unfoldable pub edit_variable :
    Bool → (String × Variable) → List (String × Variable) → List (String × Variable)
edit_variable override_user (k, v) variables =
    let elem = kept v (lookup k variables) in
    if not elem.user_editable && not override_user
    then variables
    else insert k (record elem { value = v.value }) variables

-- Whether the loop of `Edit` writes to the map at all, if the map has no entries.
unfoldable pub writes_any : Bool → List (String × Variable) → Bool
writes_any override_user [] = false
writes_any override_user ((k, v) ∷ edits) =
    let later = writes_any override_user edits in
    if not v.user_editable && not override_user then later else true

-- The loop of `Edit` over a map that is not nil.
unfoldable pub edit_variables :
    Bool → List (String × Variable) → List (String × Variable) → List (String × Variable)
unfolding edit_variable
edit_variables override_user [] variables = variables
edit_variables override_user (kv ∷ edits) variables =
    edit_variables override_user edits (edit_variable override_user kv variables)

-- The loop of `Edit`: the first write to a nil map is a panic.
unfoldable pub edit_map :
    Bool
    → Bool
    → List (String × Variable)
    → List (String × Variable)
    → Option (List (String × Variable))
unfolding writes_any edit_variables
edit_map is_nil override_user edits variables =
    if is_nil && writes_any override_user edits
    then none
    else some (edit_variables override_user edits variables)
