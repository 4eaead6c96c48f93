-- ===== src/Tests/Migration.antt =====
-- The theorems on the migration.
use pufferd.Common.{
  String, [], ◌∷◌, false, none, some, ◌≡◌, ◌≢◌, refl, arith, lookup, ◌==◌, if◌then◌else◌, eq_iff,
  ap,
}
use pufferd.Types.{other, ok, err, text, FileInfo}
use pufferd.FilePath.{join, base}
use pufferd.Migrate.{Files, Machine, migrate_all, files_of}
use pufferd.Migrate.Backup.{definition, backup, Kept, migrate_loses_nothing}
use pufferd.Migrate.Convert.{
  Entries, Typed, convert_entries, convert_entry, without_type, as_string,
}
use pufferd.Migrate.Entries.{Agree, convert_entries-Agree}

-- A machine on which writing the migrated definition fails half-way.
abbrev old_file : FileInfo
old_file = record { name = "a.json"; is_dir = false; size = 2; mod_time = 0 }

abbrev text_file : FileInfo
text_file = record { name = "b.txt"; is_dir = false; size = 2; mod_time = 0 }

abbrev full_disk : Machine
full_disk = record {
  server_folder = "/srv";
  read_dir = ok (old_file ∷ text_file ∷ []);
  mkdir_all = none;
  fate = λ path. record {
    open_source = none;
    open_backup = none;
    copy = none;
    open_definition = none;
    open_target = none;
    write = some ("{", other "no space left on device");
  };
  decode = λ s. err (other "no json");
  encode = λ s. ok "{}";
}

abbrev files : Files
files path = if path == "/srv/a.json" then some "{old}" else none

definition_is : definition full_disk old_file ≡ "/srv/a.json"
unfolding join
definition_is = refl

backup_is : backup full_disk old_file ≡ "/srv/backup/a.json"
unfolding join base
backup_is = refl

others_are :
    (definition full_disk text_file ≡ "/srv/b.txt")
    × (backup full_disk text_file ≡ "/srv/backup/b.txt")
unfolding join base
others_are = (refl, refl)

-- Two paths that a test tells apart.
differ : {a b : String} (x y : String) → a ≡ x → b ≡ y → (x == y) ≡ false → a ≢ b
differ x y ea eb h e = ground (arith, h, e, ea, eb, eq_iff x y)

files_hold : files (definition full_disk old_file) ≡ some "{old}"
files_hold = ap files definition_is

migrate_loses_nothing_example :
    Kept
      (definition full_disk old_file)
      (backup full_disk old_file)
      "{old}"
      (files_of (migrate_all full_disk (old_file ∷ text_file ∷ []) files))
migrate_loses_nothing_example =
    migrate_loses_nothing full_disk old_file [] (text_file ∷ []) "{old}" files
      (differ "/srv/a.json" "/srv/backup/a.json" definition_is backup_is refl) tt
      (
        (
          (
            differ "/srv/b.txt" "/srv/a.json" others_are.0 definition_is refl,
            differ "/srv/backup/b.txt" "/srv/a.json" others_are.1 definition_is refl,
          ),
          (
            differ "/srv/b.txt" "/srv/backup/a.json" others_are.0 backup_is refl,
            differ "/srv/backup/b.txt" "/srv/backup/a.json" others_are.1 backup_is refl,
          ),
        ),
        tt,
      )
      files_hold

-- An operation of version 1.
abbrev run_once : Entries
run_once = ("commands", text "java -version") ∷ ("type", text "command") ∷ []

abbrev typed : Typed
typed = record { kind = "command"; metadata = ("commands", text "java -version") ∷ [] }

run_once-typed : convert_entries (run_once ∷ []) ≡ some (typed ∷ [])
unfolding convert_entries convert_entry as_string without_type lookup
run_once-typed = refl

convert_entries-Agree_example : Agree (run_once ∷ []) (typed ∷ [])
convert_entries-Agree_example = convert_entries-Agree (run_once ∷ []) (typed ∷ []) run_once-typed
