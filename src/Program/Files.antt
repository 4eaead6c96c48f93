-- ===== src/Program/Files.antt =====
-- The files of a server, by a name that a client sends (programs/program.go).
use pufferd.Common.{
  ℕ, suc, String, Bool, List, [], ◌∷◌, true, false, Option, none, some, is_some, if◌then◌else◌, not,
  ◌==◌, ◌||◌, length, replicate, get_elem?, set,
}
use pufferd.Types.{
  Err, illegal_file_access, Program, FileInfo, FileDesc, FileData, listing, contents,
}
use pufferd.FilePath.{ext}
use pufferd.World.{
  Call, Outside, ret, Go, pure, crash, ◌>>=◌, ask, ask_flag, ask_entries, need, allowed,
}

abbrev pub blank : FileDesc
blank = record { name = ""; modified = 0; size = 0; file = false; extension = "" }

abbrev pub parent_entry : FileDesc
parent_entry = record { name = ".."; modified = 0; size = 0; file = false; extension = "" }

unfoldable pub describe : FileInfo → FileDesc
unfolding ext
describe info =
    if info.is_dir
    then record { name = info.name; modified = 0; size = 0; file = false; extension = "" }
    else record {
      name = info.name;
      modified = info.mod_time;
      size = info.size;
      file = true;
      extension = ext info.name;
    }

-- The loop that writes the entries into the array from an index on; a write past its end panics.
unfoldable pub fill : List FileDesc → ℕ → List FileInfo → Go (List FileDesc)
fill names i [] = pure names
fill names i (info ∷ infos) =
    let rest = fill (set names i (describe info)) (suc i) infos in
    elim (get_elem? names i) [ none ↦ crash | some old ↦ rest ]

unfoldable pub is_root_name : String → Bool
is_root_name name = name == "" || name == "." || name == "/"

-- The array as it is made, and the index of the first entry.
unfoldable pub fresh_names : Bool → ℕ → List FileDesc × ℕ
fresh_names true n = (replicate n blank, 0)
fresh_names false n = (parent_entry ∷ replicate n blank, 1)

-- The two ways `GetItem` ends: a directory's list, and an open file.
unfoldable pub list_folder : Outside → String → String → Bool → Go (Option FileData × Option Err)
unfolding fill fresh_names
list_folder o target_file root at_root = do
  (files, _) ← ask_entries o (Call.read_dir target_file)
  let (names, first) = fresh_names at_root (length files)
  valid ← λ w. ret (o.remove_invalid_symlinks w.trace files target_file root) w
  file_names ← fill names first valid
  pure (some (listing file_names), none)

unfoldable pub read_item : Outside → String → Go (Option FileData × Option Err)
read_item o target_file = do
  failed ← ask o (Call.open_file target_file)
  size ← λ w. ret (o.size w.trace (Call.stat target_file)) w
  info ← λ w. ret (o.info w.trace (Call.stat target_file)) w
  if is_some failed
      then pure (none, failed)
      else pure (some (contents info.name target_file size), none)

-- `GetItem`: a nil result goes with an error.
unfoldable pub get_item : Outside → Program → String → Go (Option FileData × Option Err)
unfolding list_folder read_item is_root_name
get_item o p name = do
  e ← need p.environment
  let root = o.root_directory e
  let target_file = o.join_path root name
  access ← allowed o target_file root
  if not access then pure (none, some illegal_file_access) else do
    (is_dir, missing) ← ask_flag o (Call.stat target_file)
    if is_some missing
        then pure (none, missing)
        else if is_dir
        then list_folder o target_file root (is_root_name name)
        else read_item o target_file

-- `CreateFolder`, `OpenFile` and `DeleteItem`: the target and the call on it, if it is allowed.
abbrev pub on_allowed : Outside → Program → String → (String → Call) → Go (Option Err)
on_allowed o p name act = do
  e ← need p.environment
  let target_file = o.join_path (o.root_directory e) name
  access ← allowed o target_file (o.root_directory e)
  if not access then pure (some illegal_file_access) else ask o (act target_file)

unfoldable pub create_folder : Outside → Program → String → Go (Option Err)
create_folder o p name = on_allowed o p name Call.mkdir

unfoldable pub open_file : Outside → Program → String → Go (Option Err)
open_file o p name = on_allowed o p name Call.create_file

unfoldable pub delete_item : Outside → Program → String → Go (Option Err)
delete_item o p name = on_allowed o p name Call.remove_all
