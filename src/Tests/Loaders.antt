-- ===== src/Tests/Loaders.antt =====
-- The theorems on the loader's list of servers, and on edits in any order.
use pufferd.Common.{
  eq_other, ◌≡◌, refl, arith, String, List, [], ◌∷◌, true, false, lookup, ◌==◌, eq_iff, map, none,
}
use pufferd.Types.{is_exist, is_not_exist, text, Variable, Scope, status}
use pufferd.World.{ret, final, World, Outside, stepping}
use pufferd.Program.{create_program, is_auto_start, edit_variables, edit_map, writes_any}
use pufferd.Program.Edit.{IsDistinct, edit_any_order}
use pufferd.Program.Lifecycle.{stop, destroy, is_running, create, run_section}
use pufferd.Operations.{generate_process, generate_from}
use pufferd.Operations.Run.{run_process}
use pufferd.Programs.{
  load_from_folder, load_all, create_server, create_unknown, create_steps, with_file,
  write_definition, with_written, with_kind, with_made, enter, undo, get_from_cache, find, delete,
  delete_found, remove_server, forget, edit, save, reload, load, load_from_data, load_decoded,
}
use pufferd.Programs.Registry.{
  Request, add, remove, change, renew, done, failed, broken, state_after, history, Steps, view,
  IsSound,
}
use pufferd.Programs.Registry.Refined.{history-Refines}
use pufferd.FilePath.{trim_ext, file_part, ext}
use pufferd.Daemon.{boot, prepare_folder, greet_all, greet}
use pufferd.Daemon.Running.{HasDistinctFiles, boot-IsWhole}
use pufferd.Programs.Exit.{init_service}
use pufferd.Auth.{Credentials}
use pufferd.Programs.Whole.{IsWhole}
use pufferd.Routing.Socket.{fields}
use pufferd.Routing.Handlers.{listen_later}
use pufferd.Routing.Handlers.{Request as Asked}
use pufferd.Routing.Routes.{Route, on_create, on_delete}
use pufferd.Daemon.Events.{
  Event, request, goroutine, tick, exits, queue_closed, happen_all, happen_all-IsWhole,
}
use pufferd.Tests.Sample.{game, lobby, sample, quiet, open_house, authority}

abbrev requests : List Request
requests =
    remove "game" ∷ add game ∷ add lobby ∷ change 1 [] true ∷ renew "lobby" ∷ remove "shop" ∷ []

-- The names are kept shut, since a test of two of them computes on its own.
abbrev game_id : String
game_id = "game"

tests_differ : (game_id == "lobby") ≡ false
tests_differ = refl

other_name : (id : String) → (game_id == id) ≡ true → ("lobby" == id) ≡ false
other_name id h =
    ground (arith, eq_iff game_id id, eq_iff "lobby" id, eq_iff game_id "lobby", tests_differ)

sample-IsSound : IsSound sample
sample-IsSound = record {
  inside = (omega arith, (omega arith, tt));
  unique = (λ id h. (other_name id h, tt), (λ id h. tt, tt));
}

-- A deletion, and the same object again; a second "lobby" is refused.
answers :
    map (λ h. h.1) (history quiet requests sample)
    ≡ done ∷ done ∷ failed ∷ done ∷ broken ∷ done ∷ []
unfolding create_server create_unknown create_steps with_file write_definition with_written
    with_kind with_made enter undo get_from_cache find delete delete_found remove_server forget edit
    save reload load load_from_data load_decoded edit_map edit_variables writes_any stop destroy
    is_running create run_section generate_process generate_from run_process stepping
answers = refl

history-Refines_example :
    IsSound (state_after quiet requests sample)
    × Steps (view sample) (history quiet requests sample) (view (state_after quiet requests sample))
history-Refines_example = history-Refines quiet requests sample sample-IsSound

abbrev word : String → Variable
word s = record {
  value = text s;
  user_editable = true;
  label = "";
  description = "";
  required = false;
}

abbrev edits : List (String × Variable)
edits = ("a", word "1") ∷ ("b", word "2") ∷ []

abbrev others : List (String × Variable)
others = ("b", word "2") ∷ ("a", word "1") ∷ []

a_is_not_b : ("a" == "b") ≡ false
a_is_not_b = refl

edits-IsDistinct : IsDistinct edits
unfolding lookup
edits-IsDistinct = (refl, (refl, tt))

others-IsDistinct : IsDistinct others
unfolding lookup
others-IsDistinct = (refl, (refl, tt))

same_edits : (k : String) → lookup k edits ≡ lookup k others
unfolding lookup
same_edits k = ground (arith, eq_iff "a" k, eq_iff "b" k, eq_iff "a" "b", a_is_not_b)

edit_any_order_example :
    lookup "a" (edit_variables false edits []) ≡ lookup "a" (edit_variables false others [])
edit_any_order_example =
    edit_any_order false edits others [] [] edits-IsDistinct others-IsDistinct same_edits
      (λ k. refl) "a"

abbrev holder : Credentials
holder = record { authorization = "Bearer abc"; access_token = ""; server = "game" }

abbrev asked : Asked
asked = record {
  id = "shop";
  wait = true;
  filename = "";
  folder = false;
  content_type = "";
  form_error = none;
  body = "";
  time = "";
  upgrade = none;
}

abbrev create_route : Route
create_route = record {
  method = "PUT";
  path = "/server/:id";
  scope = Scope.servers_create;
  require_server = false;
  handler = on_create;
}

abbrev delete_route : Route
delete_route = record {
  method = "DELETE";
  path = "/server/:id";
  scope = Scope.servers_delete;
  require_server = true;
  handler = on_delete;
}

-- A server is made, a socket starts one, one crashes and is queued, one is deleted, and the queue is served.
abbrev events : List Event
events =
    request (status 501) create_route holder none asked
    ∷ goroutine (fields (("type", text "start") ∷ []) ∷ [])
        (listen_later 1 (Scope.servers_start ∷ []))
    ∷ exits 1 false
    ∷ request (status 501) delete_route holder none asked
    ∷ tick
    ∷ queue_closed
    ∷ []

happen_all-IsWhole_example : IsWhole (happen_all open_house authority events sample)
happen_all-IsWhole_example =
    happen_all-IsWhole open_house authority events sample
      (record { sound = sample-IsSound; queued = tt })

-- Every file can be read, and holds a definition.
abbrev readable : Outside
readable = record quiet { reply = λ t c. "{}" }

abbrev unstarted : World
unstarted = record sample { all_programs = []; queue = [] }

abbrev log_name : String
log_name = "log.txt"

stems_differ : (trim_ext log_name == trim_ext "link") ≡ false
unfolding trim_ext file_part ext
stems_differ = refl

files_differ : HasDistinctFiles readable
files_differ t = ((eq_other (trim_ext log_name) (trim_ext "link") stems_differ, tt), (tt, tt))

started : boot readable unstarted ≡ ret (none, true) (final (boot readable unstarted))
unfolding boot prepare_folder load_from_folder load_all load load_from_data load_decoded
    create_program greet_all greet is_auto_start init_service is_not_exist is_exist stepping
started = refl

boot-IsWhole_example :
    IsWhole (happen_all readable authority events (final (boot readable unstarted)))
boot-IsWhole_example =
    boot-IsWhole readable authority events unstarted (final (boot readable unstarted)) (none, true)
      files_differ (refl, refl) started
