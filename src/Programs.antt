-- ===== src/Programs.antt =====
-- The set of servers that the daemon manages (programs/loader.go), the start queue and the exit of
-- a server's process (programs/program.go).
pub mod Exit
pub mod Restarts
pub mod Cache
pub mod Removal
pub mod Edited
pub mod Loaded
pub mod Whole
pub mod Registry
pub mod Directory
pub mod Names
pub mod Created
pub mod Queue
use pufferd.Common.{
  ℕ, String, Bool, List, [], ◌∷◌, ◌++◌, true, false, Option, none, some, is_some, if◌then◌else◌,
  not, ◌==◌, ◌||◌, ◌&&◌, get_elem?, set, length, nat_beq,
}
use pufferd.Types.{
  Err, server_already_exists, other, is_exist, Result, ok, err, Value, Variable, Program, FileInfo,
}
use pufferd.Text.{◌<>◌}
use pufferd.FilePath.{trim_ext}
use pufferd.World.{
  Call, Outside, World, Outcome, ret, panic, Go, pure, crash, ◌>>=◌, ◌>>◌, ask, ask_flag,
  ask_entries, ask_reply, tell, need, deref, store, alloc, final,
}
use pufferd.Program.{create_program, edit_map, copy_from}
use pufferd.Program.Lifecycle.{stop, create, destroy, is_running}

-- `element != nil && element.Id() == id`.
abbrev pub has_id : String → Option Program → Bool
has_id id none = false
has_id id (some program) = program.identifier == id

-- The first pointer of a list whose program has the identifier.
unfoldable pub find : List Program → String → List ℕ → Option ℕ
find heap id [] = none
find heap id (p ∷ ps) = if has_id id (get_elem? heap p) then some p else find heap id ps

-- `GetFromCache`.
unfoldable pub get_from_cache : String → World → Option ℕ
unfolding find
get_from_cache id w = find w.heap id w.all_programs

-- Where a server's definition is stored.
abbrev pub definition_path : Outside → String → String
definition_path o id = o.join_path o.server_folder (id <> ".json")

-- The identifier and the environment of `LoadFromData`.
unfoldable pub with_environment : String → Option ℕ → Program → Program
with_environment id environment p = record p { identifier = id; environment = environment }

-- `LoadFromData` behind the decoding.
unfoldable pub load_decoded : Outside → String → Result Program → Go (Result ℕ)
unfolding with_environment
load_decoded o id (err e) w = ret (err e) w
load_decoded o id (ok program) w = elim (o.environment_type program.server_environment) [
  | err e ↦ ret (err e) w
  | ok kind ↦ elim (o.new_environment w.trace kind o.server_folder id program.server_environment) [
    | err e ↦ ret (err e) w
    | ok e ↦ (alloc (with_environment id (some e) program) >>= λ p. pure (ok p)) w
  ]
]

-- `LoadFromData`: the JSON null makes the pointer nil that is decoded into, and the next line is a panic.
unfoldable pub load_from_data : Outside → String → String → Go (Result ℕ)
unfolding load_decoded
load_from_data o id source =
    if o.is_null source then crash else load_decoded o id (o.decode create_program source)

-- A pointer with its error: `none` is nil.
abbrev pub pointer_of : Result ℕ → Option ℕ × Option Err
pointer_of (ok p) = (some p, none)
pointer_of (err e) = (none, some e)

-- `Load`: a file that is empty or cannot be read gives a nil program, in the first case with no error.
unfoldable pub load : Outside → String → Go (Option ℕ × Option Err)
unfolding load_from_data
load o id = do
  (source, failed) ← ask_reply o (Call.read_file (definition_path o id))
  if source == "" || is_some failed
      then pure (none, failed)
      else do loaded ← load_from_data o id source; pure (pointer_of loaded)

-- `Get`.
unfoldable pub get : Outside → String → Go (Option ℕ × Option Err)
unfolding load get_from_cache
get o id w = elim (get_from_cache id w) [ some p ↦ ret (some p, none) w | none ↦ load o id w ]

-- `allPrograms = append(allPrograms, program)`.
abbrev pub remember : ℕ → Go (Unit {0})
remember p w = ret tt (record w { all_programs = w.all_programs ++ p ∷ [] })

-- The loop of `LoadFromFolder` over the file names that are no folders. A nil program that comes
-- without an error is a panic at `program.Id()`.
unfoldable pub load_all : Outside → List String → Go (Unit {0})
unfolding load trim_ext
load_all o [] = pure tt
load_all o (name ∷ names) = do
  (program, failed) ← load o (trim_ext name)
  if is_some failed then load_all o names else do p ← need program; remember p; load_all o names

-- The names of the entries that are no folders.
abbrev pub file_names : List FileInfo → List String
file_names [] = []
file_names (f ∷ fs) = if f.is_dir then file_names fs else f.name ∷ file_names fs

-- `LoadFromFolder`: the errors of making and of reading the folder are only logged.
unfoldable pub load_from_folder : Outside → Go (Unit {0})
load_from_folder o = do
  tell o (Call.mkdir o.server_folder)
  (program_files, _) ← ask_entries o (Call.read_dir o.server_folder)
  load_all o (file_names program_files)

-- `Save` of the loader, which is that of the cached program.
unfoldable pub save : Outside → String → Go (Option Err)
unfolding get_from_cache
save o id w = elim (get_from_cache id w) [
  | none ↦ ret (some (other "no server with given id")) w
  | some p ↦
      (deref p >>= λ program. elim (o.encode program) [
        | err e ↦ pure (some e)
        | ok source ↦ ask o (Call.write_file (definition_path o id) source)
      ])
        w
]

-- `Program.Edit`.
unfoldable pub edit : Outside → ℕ → List (String × Variable) → Bool → Go (Option Err)
unfolding save
edit o p edits override_user = do
  program ← deref p
  elim (edit_map program.nil_variables override_user edits program.variables) [
    | none ↦ crash
    | some variables ↦
        store p (record program { variables = variables }) >> save o program.identifier
  ]

-- `Reload`: a nil program without an error is a panic in `CopyFrom`.
unfoldable pub reload : Outside → String → Go (Option Err)
unfolding get_from_cache load
reload o id w = elim (get_from_cache id w) [
  | none ↦ ret (some (other "server does not exist")) w
  | some p ↦
      (do
        (loaded, failed) ← load o id
        if is_some failed then pure failed else do
          q ← need loaded
          new_version ← deref q
          program ← deref p
          store p (copy_from program new_version)
          pure none)
        w
]

-- The deferred undoing of `Create`.
unfoldable pub undo : Outside → ℕ → Option Err → Go (Option Err)
undo o p none = pure none
undo o p (some failed) = do
  program ← deref p
  tell o (Call.remove (definition_path o program.identifier))
  elim program.environment [
    | none ↦ pure (some failed)
    | some e ↦ tell o (Call.delete e) >> pure (some failed)
  ]

-- The end of `Create`.
unfoldable pub enter : ℕ → Option Err → Go (Option Err)
enter p (some failed) = pure (some failed)
enter p none = remember p >> pure none

-- The part of `Create` behind `environments.Create`, whose error is not looked at: the nil environment
-- is used, which panics, and the deferred undoing finds the error.
unfoldable pub with_made : Outside → ℕ → Program → Result ℕ → Go (Option Err)
with_made o p program (err x) =
    store p (record program { environment = none }) >> (undo o p (some x) >> crash)
with_made o p program (ok e) =
    store p (record program { environment = some e })
    >> (create o (record program { environment = some e }) >>= enter p)

unfoldable pub with_kind : Outside → ℕ → Program → Result String → Go (Option Err)
with_kind o p program (err e) = pure (some e)
with_kind o p program (ok kind) =
    (λ w.
      ret
        (o.new_environment w.trace kind o.server_folder program.identifier
          program.server_environment)
        w)
    >>= with_made o p program

-- The part of `Create` behind the file.
unfoldable pub with_written : Outside → ℕ → Program → Option Err → Go (Option Err)
with_written o p program (some failed) = pure (some failed)
with_written o p program none =
    with_kind o p program (o.environment_type program.server_environment)

unfoldable pub write_definition : Outside → Program → Result String → Go (Option Err)
write_definition o program (err e) = pure (some e)
write_definition o program (ok source) =
    ask o (Call.write_file (definition_path o program.identifier) source)

unfoldable pub with_file : Outside → ℕ → Program → Option Err → Go (Option Err)
with_file o p program (some failed) = pure (some failed)
with_file o p program none =
    write_definition o program (o.encode program) >>= with_written o p program

unfoldable pub create_steps : Outside → ℕ → Program → Go (Option Err)
create_steps o p program =
    ask o (Call.create_file (definition_path o program.identifier)) >>= with_file o p program

-- `Create` of the loader, of an object that the caller has made.
unfoldable pub create_unknown : Outside → ℕ → Program → Option ℕ → Go (Option Err)
create_unknown o p program (some q) = pure (some server_already_exists)
create_unknown o p program none = create_steps o p program >>= undo o p

unfoldable pub create_server : Outside → ℕ → Go (Option Err)
create_server o p =
    deref p >>= λ program v. create_unknown o p program (get_from_cache program.identifier v) v

-- `append(allPrograms[:index], allPrograms[index+1:]...)` at the first pointer with the identifier.
unfoldable pub forget : List Program → String → List ℕ → List ℕ
forget heap id [] = []
forget heap id (p ∷ ps) = if has_id id (get_elem? heap p) then ps else p ∷ forget heap id ps

-- The last part of `Delete`: the entry goes, also where the file stays.
unfoldable pub remove_server : Outside → String → Go (Option Err)
remove_server o id = do
  failed ← ask o (Call.remove (definition_path o id))
  λ w. ret failed (record w { all_programs = forget w.heap id w.all_programs })

-- `Delete` of the program that was found.
unfoldable pub delete_found : Outside → String → Option ℕ → Go (Option Err)
delete_found o id none = pure none
delete_found o id (some p) = do
  program ← deref p
  (running, failed) ← is_running o program
  if is_some failed then pure failed else do
    stopped ← if running then stop o program else pure none
    if is_some stopped then pure stopped else do
      destroyed ← destroy o program
      if is_some destroyed then pure destroyed else remove_server o id

-- `Delete`.
unfoldable pub delete : Outside → String → Go (Option Err)
delete o id w = delete_found o id (get_from_cache id w) w
