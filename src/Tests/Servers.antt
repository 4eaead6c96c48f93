-- ===== src/Tests/Servers.antt =====
-- The theorems on servers, their starts and their variables.
use pufferd.Common.{
  ℕ, ◌+◌, ◌≤◌, ◌<◌, String, List, [], ◌∷◌, ◌++◌, true, false, none, some, ◌≡◌, ◌≢◌, refl, arith,
  length, lookup, ◌-◌, eq_iff, ◌==◌, map, replicate, ◌⊎◌,
}
use pufferd.Types.{Value, text, Variable, listing}
use pufferd.World.{Outside, Call, World, ret, final, stepping, record_call}
use pufferd.Operations.{mkdir, write_file, generate_process, generate_from}
use pufferd.Operations.Run.{run_process}
use pufferd.Operations.Order.{Ends, run_process-Ends}
use pufferd.Program.{is_enabled, edit_variables, data_to_map}
use pufferd.Program.Edit.{edit_protected, edit_keeps_metadata}
use pufferd.Programs.Edited.{Edited, edit-Edited}
use pufferd.Program.Lifecycle.{start, start_stopped, launch, run_section, stop, destroy, is_running}
use pufferd.Program.Files.{blank, describe, list_folder}
use pufferd.Program.Listing.{parents, list_folder-entries}
use pufferd.Program.Safety.{launches, start_at_most_once, start_only_if}
use pufferd.Programs.{
  create_server, get_from_cache, find, delete, delete_found, remove_server, forget, edit,
}
use pufferd.Programs.Created.{Entered, create_server-Entered}
use pufferd.Programs.Cache.{IsUnique}
use pufferd.Programs.Removal.{Removed, delete-Removed}
use pufferd.Programs.Queue.{
  enqueue, tick, shut_down, view, serve_all, expected_all, serve_all-expected,
}
use pufferd.Programs.Restarts.{after_crashes, counter, crash_restarts_bounded}
use pufferd.Operations.Downloads.{download_via_maven, cache_is_valid, fetch, cache_path}
use pufferd.Operations.Cached.{Fetched, Verified, download_via_maven-Verified}
use pufferd.Tests.Sample.{game, lobby, sample, quiet, log_file}

start_at_most_once_example :
    (0 ≤ launches (final (start quiet game sample)).trace)
    × (launches (final (start quiet game sample)).trace ≤ 0 + 1)
start_at_most_once_example = start_at_most_once quiet game sample

-- The server is started.
start-launches : 0 < launches (final (start quiet game sample)).trace
unfolding start start_stopped launch run_section generate_process generate_from run_process
    data_to_map stepping
start-launches = omega arith

start_only_if_example :
    (is_enabled game ≡ true)
    × ((e : ℕ) × (some 0 ≡ some e)
        × (quiet.flag [] (Call.is_running e) ≡ false)
        × (quiet.answer [] (Call.is_running e) ≡ none))
start_only_if_example = start_only_if quiet game sample start-launches

crash_restarts_bounded_example :
    length (after_crashes quiet 0 9 sample).queue ≤ length sample.queue + (3 - counter 0 sample)
crash_restarts_bounded_example = crash_restarts_bounded quiet 0 9 sample

abbrev port : Variable
port = record {
  value = text "25565";
  user_editable = false;
  label = "Port";
  description = "";
  required = true;
}

abbrev message : Variable
message = record {
  value = text "hi";
  user_editable = true;
  label = "Message";
  description = "";
  required = false;
}

abbrev settings : List (String × Variable)
settings = ("port", port) ∷ ("message", message) ∷ []

abbrev edits : List (String × Variable)
edits =
    ("port", record port { value = text "1"; user_editable = true })
    ∷ ("message", record message { value = text "ho" })
    ∷ []

port_set : lookup "port" settings ≡ some port
unfolding lookup
port_set = refl

jar_unset : lookup "jar" settings ≡ none
unfolding lookup
jar_unset = refl

-- A server that was made without variables.
abbrev bare : World
bare = record sample { heap = record game { nil_variables = true } ∷ [] }

edit-Edited_example :
    Edited quiet 0
      (record game { nil_variables = true })
      true
      edits
      bare
      (edit quiet 0 edits true bare)
edit-Edited_example =
    edit-Edited quiet 0 edits true bare (record game { nil_variables = true }) refl

edit_protected_example : lookup "port" (edit_variables false edits settings) ≡ some port
edit_protected_example = edit_protected "port" edits settings port port_set refl

edit_keeps_metadata_example :
    (x : Value) × (lookup "port" (edit_variables true edits settings)
      ≡ some (record port { value = x }))
edit_keeps_metadata_example = edit_keeps_metadata true "port" edits settings port port_set

serve_all-expected_example :
    view (serve_all quiet (enqueue 0 ∷ enqueue 1 ∷ tick ∷ shut_down ∷ enqueue 0 ∷ []) sample)
    ≡ expected_all (enqueue 0 ∷ enqueue 1 ∷ tick ∷ shut_down ∷ enqueue 0 ∷ []) (view sample)
serve_all-expected_example =
    serve_all-expected quiet (enqueue 0 ∷ enqueue 1 ∷ tick ∷ shut_down ∷ enqueue 0 ∷ []) sample

game_cached : get_from_cache "game" sample ≡ some 0
unfolding get_from_cache find
game_cached = refl

delete-Removed_example :
    Removed sample.heap "game" 0 sample.all_programs (delete quiet "game" sample)
delete-Removed_example = delete-Removed quiet "game" 0 sample game_cached

-- The state behind the deletion, and that it goes through.
abbrev deleted : World
deleted = record sample {
  trace = Call.remove "/srv/game.json" ∷ Call.delete 0 ∷ Call.is_running 0 ∷ [];
  all_programs = 1 ∷ [];
}

delete_game : delete quiet "game" sample ≡ ret none deleted
unfolding delete get_from_cache find delete_found remove_server forget is_running stop destroy
    run_section generate_process generate_from run_process data_to_map stepping
delete_game = refl

abbrev game_id : String
game_id = "game"

tests_differ : (game_id == "lobby") ≡ false
tests_differ = refl

names_differ : game_id ≢ "lobby"
names_differ h = ground (arith, h, eq_iff game_id "lobby", tests_differ)

other_name : (id : String) → (game_id == id) ≡ true → ("lobby" == id) ≡ false
other_name id h =
    ground (arith, eq_iff game_id id, eq_iff "lobby" id, eq_iff game_id "lobby", tests_differ)

unique : IsUnique sample.heap sample.all_programs
unique = (λ id h. (other_name id h, tt), (λ id h. tt, tt))

list_folder-entries_example :
    list_folder quiet "/srv/game/logs" "/srv/game" false sample
    ≡ ret
        (
          some (
              listing (parents false ++ (map describe (log_file ∷ []) ++ replicate (2 - 1) blank))),
          none,
        )
        (record_call (Call.read_dir "/srv/game/logs") sample)
list_folder-entries_example =
    list_folder-entries quiet "/srv/game/logs" "/srv/game" false sample (omega arith)

run_process-Ends_example :
    Ends quiet 0
      (mkdir "logs" ∷ write_file "a.txt" "a" ∷ [])
      sample
      (run_process quiet 0 (mkdir "logs" ∷ write_file "a.txt" "a" ∷ []) sample)
run_process-Ends_example =
    run_process-Ends quiet 0 (mkdir "logs" ∷ write_file "a.txt" "a" ∷ []) sample

-- A pattern that two files match, and a target that is a folder.
abbrev crowded : Outside
crowded = record quiet { names = λ t c. "a.jar" ∷ "b.jar" ∷ []; flag = λ t c. true }

-- A daemon that is about to create a third server.
abbrev growing : World
growing = record sample {
  heap = game ∷ lobby ∷ record game { identifier = "arena"; environment = none } ∷ [];
}

create_server-Entered_example : Entered (0 ∷ 1 ∷ []) 2 (create_server quiet 2 growing)
create_server-Entered_example = create_server-Entered quiet 2 growing

lobby_cached : get_from_cache "lobby" sample ≡ some 1
unfolding get_from_cache find
lobby_cached = refl

abbrev artifact : String
artifact = "http://maven/forge.jar"

-- The cached file has the hash that the server gives.
abbrev found_cached : World
found_cached = final (download_via_maven quiet artifact none sample)

artifact_cached :
    download_via_maven quiet artifact none sample
    ≡ ret (cache_path quiet artifact, none) found_cached
unfolding download_via_maven cache_is_valid fetch stepping
artifact_cached = refl

download_via_maven-Verified_example :
    (cache_path quiet artifact ≡ cache_path quiet artifact)
    × (Fetched quiet artifact (cache_path quiet artifact) found_cached
        ⊎ Verified quiet artifact
            (cache_path quiet artifact)
            (Call.open_file (cache_path quiet artifact) ∷ sample.trace)
            found_cached)
download_via_maven-Verified_example =
    download_via_maven-Verified quiet artifact (cache_path quiet artifact) none sample found_cached
      artifact_cached
