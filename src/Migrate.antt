-- ===== src/Migrate.antt =====
-- cmd/migrate.go: the command `migrate`, which rewrites the server definitions of version 1. What it prints
-- is left out.
pub mod Convert
pub mod Backup
pub mod Entries
use pufferd.Common.{
  String, Bool, List, [], ◌∷◌, ◌++◌, true, false, Option, none, some, if◌then◌else◌, not, ◌||◌,
  ◌==◌,
}
use pufferd.Types.{Err, other, file_not_exist, Result, ok, err, Value, text, FileInfo, Variable}
use pufferd.Text.{has_suffix}
use pufferd.FilePath.{join, base}
use pufferd.Migrate.Convert.{ServerJson, Server, convert}

-- The file system: the contents of the file at a path.
abbrev pub Files : Type 0
Files = String → Option String

-- What becomes of the calls of the operating system for one file: an error that opening gives, and what a
-- copy or a write that fails has left in the file.
pub record Fate : Type 0 where
  pub open_source : Option Err
  pub open_backup : Option Err
  pub copy : Option (String × Err)
  pub open_definition : Option Err
  pub open_target : Option Err
  pub write : Option (String × Err)

-- The rest of the outside.
pub record Machine : Type 0 where
  pub server_folder : String
  pub read_dir : Result (List FileInfo)
  pub mkdir_all : Option Err
  pub fate : String → Fate
  pub decode : String → Result ServerJson
  pub encode : Server → Result String

-- A file with new contents.
unfoldable pub put : String → String → Files → Files
put name contents files asked = if asked == name then some contents else files asked

-- Opening a file to read it.
unfoldable pub open_read : Option Err → String → Files → Result String
open_read (some e) name files = err e
open_read none name files = elim (files name) [
  | none ↦ err file_not_exist
  | some contents ↦ ok contents
]

-- Opening a file empty and writing to it: an error of the opening leaves the file alone.
unfoldable pub overwrite :
    Option Err → Option (String × Err) → String → String → Files → Option Err × Files
unfolding put
overwrite (some e) fails name contents files = (some e, files)
overwrite none (some (left, e)) name contents files = (some e, put name left files)
overwrite none none name contents files = (none, put name contents files)

-- The copy behind the opening of the source.
unfoldable pub save_copy : Fate → String → Result String → Files → Option Err × Files
unfolding overwrite
save_copy fate target (err e) files = (some e, files)
save_copy fate target (ok source) files = overwrite fate.open_backup fate.copy target source files

unfoldable pub backup_file : Fate → String → String → Files → Option Err × Files
unfolding open_read save_copy
backup_file fate name target_dir files =
    save_copy fate (join target_dir (base name)) (open_read fate.open_source name files) files

unfoldable pub load_file : Machine → Fate → String → Files → Result ServerJson
unfolding open_read
load_file machine fate name files = elim (open_read fate.open_definition name files) [
  | err e ↦ err e
  | ok contents ↦ machine.decode contents
]

-- What is done with a target whose opening may have failed: writing to a nil file is an error.
unfoldable pub into_target : Option Err → Err → Files → Option Err × Files → Option Err × Files
into_target (some unopened) e files written = (some e, files)
into_target none e files written = written

-- The end of `migrateFile`. The error of the opening is not looked at; a text that cannot be made leaves the
-- file empty.
unfoldable pub write_text : Fate → String → Result String → Files → Option Err × Files
unfolding overwrite into_target
write_text fate name (ok contents) files =
    into_target fate.open_target (other "invalid argument") files
      (overwrite none fate.write name contents files)
write_text fate name (err e) files =
    into_target fate.open_target e files (overwrite none (some ("", e)) name "" files)

-- `migrateFile` behind the loading; `none` is the panic at an entry without a type.
unfoldable pub write_server :
    Machine → Fate → String → Option Server → Files → Option (Option Err × Files)
unfolding write_text
write_server machine fate name none files = none
write_server machine fate name (some server) files =
    some (write_text fate name (machine.encode server) files)

unfoldable pub migrate_loaded :
    Machine → Fate → String → Result ServerJson → Files → Option (Option Err × Files)
unfolding write_server
migrate_loaded machine fate name (err e) files = some (some e, files)
migrate_loaded machine fate name (ok program) files =
    write_server machine fate name (convert program) files

unfoldable pub migrate_file : Machine → Fate → String → Files → Option (Option Err × Files)
unfolding load_file migrate_loaded
migrate_file machine fate name files =
    migrate_loaded machine fate name (load_file machine fate name files) files

-- How the command ends: it goes on to the next file, or it panics. The files are there in both cases.
pub data Going : Type 0 where
  on panicked : Files → Going

abbrev pub files_of : Going → Files
files_of (on files) = files
files_of (panicked files) = files

-- The next file behind the end of one, which may be a panic.
unfoldable pub go_on : Files → Option (Option Err × Files) → Going
go_on files none = panicked files
go_on files (some (e, done)) = on done

-- A file behind its backup, whose error leaves the definition as it is.
unfoldable pub migrate_saved : Machine → String → Option Err × Files → Going
unfolding migrate_file go_on
migrate_saved machine full_path (some e, behind) = on behind
migrate_saved machine full_path (none, behind) =
    go_on behind (migrate_file machine (machine.fate full_path) full_path behind)

-- One round of the loop: what is no definition is skipped.
unfoldable pub migrate_one : Machine → FileInfo → Files → Going
unfolding backup_file migrate_saved
migrate_one machine element files =
    let full_path = join machine.server_folder element.name in
    let backup_dir = join machine.server_folder "backup" in
    if element.is_dir || not (has_suffix element.name ".json")
    then on files
    else migrate_saved machine full_path
        (backup_file (machine.fate full_path) full_path backup_dir files)

-- A panic ends the loop.
unfoldable pub follow : (Files → Going) → Going → Going
follow rest (on done) = rest done
follow rest (panicked done) = panicked done

unfoldable pub migrate_all : Machine → List FileInfo → Files → Going
unfolding migrate_one follow
migrate_all machine [] files = on files
migrate_all machine (element ∷ rest) files =
    follow (migrate_all machine rest) (migrate_one machine element files)

unfoldable pub migrate : Machine → Files → Going
unfolding migrate_all
migrate machine files = elim machine.read_dir [
  | err e ↦ on files
  | ok elements ↦ elim machine.mkdir_all [
    | some e ↦ on files
    | none ↦ migrate_all machine elements files
  ]
]
