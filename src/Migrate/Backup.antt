-- ===== src/Migrate/Backup.antt =====
-- What the command `migrate` keeps.
use pufferd.Common.{
  String, List, [], ◌∷◌, ◌++◌, Option, none, some, ◌≡◌, ◌≢◌, ◌⊎◌, inl, inr, arith, ◌||◌, not,
  eq_iff, refl, All, Bool-cases, eq_refl, ◌∙◌, sym,
}
use pufferd.Types.{Err, Result, ok, err, FileInfo}
use pufferd.FilePath.{join, base}
use pufferd.Text.{has_suffix}
use pufferd.Migrate.{
  Files, Fate, Machine, put, open_read, overwrite, backup_file, load_file, write_server,
  migrate_file, Going, on, panicked, files_of, save_copy, into_target, write_text, migrate_loaded,
  go_on, migrate_saved, migrate_one, migrate_all, follow,
}
use pufferd.Migrate.Convert.{ServerJson, Server, convert}

-- The definition and the backup of an entry of the folder.
abbrev pub definition : Machine → FileInfo → String
definition machine element = join machine.server_folder element.name

abbrev pub backup : Machine → FileInfo → String
backup machine element =
    join (join machine.server_folder "backup") (base (definition machine element))

-- Two files are the same before and behind.
abbrev Same : String → Files → Files → Type 0
Same name files done = done name ≡ files name

put-Same :
    (name asked contents : String) (files : Files)
    → name ≢ asked
    → Same asked files (put name contents files)
unfolding put
put-Same name asked contents files h = ground (arith, eq_iff asked name)

overwrite-Same :
    (opening : Option Err) (fails : Option (String × Err)) (name asked contents : String)
    (files : Files)
    → name ≢ asked
    → Same asked files (overwrite opening fails name contents files).1
unfolding overwrite
overwrite-Same (some e) fails name asked contents files h = refl
overwrite-Same none (some (left, e)) name asked contents files h = put-Same name asked left files h
overwrite-Same none none name asked contents files h = put-Same name asked contents files h

save_copy-Same :
    (fate : Fate) (target asked : String) (source : Result String) (files : Files)
    → target ≢ asked
    → Same asked files (save_copy fate target source files).1
unfolding save_copy
save_copy-Same fate target asked (err e) files h = refl
save_copy-Same fate target asked (ok source) files h =
    overwrite-Same fate.open_backup fate.copy target asked source files h

-- A backup without an error holds what the definition holds.
save_copy-copied :
    (fate : Fate) (name target : String) (c : String) (files : Files)
    → files name ≡ some c
    → (save_copy fate target (open_read fate.open_source name files) files).0 ≡ none
    → (save_copy fate target (open_read fate.open_source name files) files).1 target ≡ some c
unfolding save_copy open_read overwrite put
save_copy-copied fate name target c files h quiet = ground (arith, eq_refl target)

into_target-Same :
    (opening : Option Err) (asked : String) (e : Err) (files : Files) (written : Option Err × Files)
    → Same asked files written.1
    → Same asked files (into_target opening e files written).1
unfolding into_target
into_target-Same (some unopened) asked e files written h = refl
into_target-Same none asked e files written h = h

write_text-Same :
    (fate : Fate) (name asked : String) (t : Result String) (files : Files)
    → name ≢ asked
    → Same asked files (write_text fate name t files).1
unfolding write_text
write_text-Same fate name asked (ok c) files h =
    into_target-Same fate.open_target asked _ files _
      (overwrite-Same none fate.write name asked c files h)
write_text-Same fate name asked (err e) files h =
    into_target-Same fate.open_target asked _ files _
      (overwrite-Same none (some ("", e)) name asked "" files h)

write_server-Same :
    (machine : Machine) (fate : Fate) (name asked : String) (server : Option Server) (files : Files)
    → name ≢ asked
    → Same asked files (files_of (go_on files (write_server machine fate name server files)))
unfolding write_server go_on
write_server-Same machine fate name asked none files h = refl
write_server-Same machine fate name asked (some server) files h =
    write_text-Same fate name asked (machine.encode server) files h

migrate_loaded-Same :
    (machine : Machine) (fate : Fate) (name asked : String) (r : Result ServerJson) (files : Files)
    → name ≢ asked
    → Same asked files (files_of (go_on files (migrate_loaded machine fate name r files)))
unfolding migrate_loaded go_on
migrate_loaded-Same machine fate name asked (err e) files h = refl
migrate_loaded-Same machine fate name asked (ok program) files h =
    write_server-Same machine fate name asked (convert program) files h

migrate_saved-Same :
    (machine : Machine) (name asked : String) (r : Option Err × Files)
    → name ≢ asked
    → Same asked r.1 (files_of (migrate_saved machine name r))
unfolding migrate_saved migrate_file
migrate_saved-Same machine name asked (some e, behind) h = refl
migrate_saved-Same machine name asked (none, behind) h =
    migrate_loaded-Same machine (machine.fate name) name asked
      (load_file machine (machine.fate name) name behind) behind h

-- Another entry of the folder, with other files.
abbrev pub Apart : Machine → String → FileInfo → Type 0
Apart machine asked element =
    (definition machine element ≢ asked) × (backup machine element ≢ asked)

migrate_one-Same :
    (machine : Machine) (asked : String) (element : FileInfo) (files : Files)
    → Apart machine asked element
    → Same asked files (files_of (migrate_one machine element files))
unfolding migrate_one backup_file
migrate_one-Same machine asked element files (h, k) =
    elim (Bool-cases (element.is_dir || not (has_suffix element.name ".json"))) [
      | inl skip ↦ ground arith
      | inr goes ↦ ground (
        arith,
        migrate_saved-Same machine (definition machine element) asked
            (backup_file (machine.fate (definition machine element)) (definition machine element)
              (join machine.server_folder "backup") files)
            h,
        save_copy-Same (machine.fate (definition machine element)) (backup machine element) asked
            (open_read (machine.fate (definition machine element)).open_source
              (definition machine element) files)
            files k,
      )
    ]

-- What a definition held is still in it, or in its backup.
abbrev pub Kept : String → String → String → Files → Type 0
Kept name target c files = (files name ≡ some c) ⊎ (files target ≡ some c)

migrate_saved-Kept :
    (machine : Machine) (name target c : String) (files : Files) (r : Option Err × Files)
    → name ≢ target
    → r.1 name ≡ some c
    → (r.0 ≡ none → r.1 target ≡ some c)
    → Kept name target c (files_of (migrate_saved machine name r))
unfolding migrate_saved
migrate_saved-Kept machine name target c files (some e, behind) h same saved = inl same
migrate_saved-Kept machine name target c files (none, behind) h same saved =
    inr (migrate_saved-Same machine name target (none, behind) h ∙ saved refl)

migrate_one-Kept :
    (machine : Machine) (element : FileInfo) (c : String) (files : Files)
    → definition machine element ≢ backup machine element
    → files (definition machine element) ≡ some c
    → Kept
        (definition machine element)
        (backup machine element)
        c
        (files_of (migrate_one machine element files))
unfolding migrate_one backup_file
migrate_one-Kept machine element c files h held =
    elim (Bool-cases (element.is_dir || not (has_suffix element.name ".json"))) [
      | inl skip ↦ inl (ground arith)
      | inr goes ↦ ground (
        arith,
        migrate_saved-Kept machine (definition machine element) (backup machine element) c files
            (backup_file (machine.fate (definition machine element)) (definition machine element)
              (join machine.server_folder "backup") files)
            h
            (save_copy-Same (machine.fate (definition machine element)) (backup machine element)
                (definition machine element)
                (open_read (machine.fate (definition machine element)).open_source
                  (definition machine element) files)
                files (λ e. h (sym e))
              ∙ held)
            (save_copy-copied (machine.fate (definition machine element))
              (definition machine element) (backup machine element) c files held),
      )
    ]

-- Entries that touch neither of two files.
abbrev pub Others : Machine → FileInfo → List FileInfo → Type 0
Others machine element = All (λ other.
    Apart machine (definition machine element) other × Apart machine (backup machine element) other)

follow_lem :
    (P Q : Files → Type 0) (rest : Files → Going) (g : Going)
    → P (files_of g)
    → ((done : Files) → P done → Q done)
    → ((done : Files) → P done → Q (files_of (rest done)))
    → Q (files_of (follow rest g))
unfolding follow
follow_lem P Q rest (on done) held weaken step = step done held
follow_lem P Q rest (panicked done) held weaken step = weaken done held

migrate_all-Kept :
    (machine : Machine) (element : FileInfo) (c : String) (rest : List FileInfo) (files : Files)
    → Others machine element rest
    → Kept (definition machine element) (backup machine element) c files
    → Kept
        (definition machine element)
        (backup machine element)
        c
        (files_of (migrate_all machine rest files))
unfolding migrate_all
migrate_all-Kept machine element c [] files apart kept = kept
migrate_all-Kept machine element c (x ∷ rest) files (apart, more) kept =
    follow_lem (Kept (definition machine element) (backup machine element) c)
      (Kept (definition machine element) (backup machine element) c) (migrate_all machine rest)
      (migrate_one machine x files)
      (elim kept [
        | inl h ↦ inl (migrate_one-Same machine (definition machine element) x files apart.0 ∙ h)
        | inr h ↦ inr (migrate_one-Same machine (backup machine element) x files apart.1 ∙ h)
      ])
      (λ done held. held) (λ done held. migrate_all-Kept machine element c rest done more held)

-- Whatever calls of the operating system fail, and where the command panics too: a definition that was
-- read from the server folder keeps its contents, in its file or in its backup, if no other entry of the
-- folder has the file or the backup for its own.
pub migrate_loses_nothing :
    (machine : Machine) (element : FileInfo) (before after : List FileInfo) (c : String)
    (files : Files)
    → definition machine element ≢ backup machine element
    → Others machine element before
    → Others machine element after
    → files (definition machine element) ≡ some c
    → Kept
        (definition machine element)
        (backup machine element)
        c
        (files_of (migrate_all machine (before ++ element ∷ after) files))
unfolding migrate_all
migrate_loses_nothing machine element [] after c files h b a held =
    follow_lem (Kept (definition machine element) (backup machine element) c)
      (Kept (definition machine element) (backup machine element) c) (migrate_all machine after)
      (migrate_one machine element files) (migrate_one-Kept machine element c files h held)
      (λ done kept. kept) (λ done kept. migrate_all-Kept machine element c after done a kept)
migrate_loses_nothing machine element (x ∷ before) after c files h (b, more) a held =
    follow_lem (λ done. done (definition machine element) ≡ some c)
      (Kept (definition machine element) (backup machine element) c)
      (migrate_all machine (before ++ element ∷ after)) (migrate_one machine x files)
      (migrate_one-Same machine (definition machine element) x files b.0 ∙ held)
      (λ done same. inl same)
      (λ done same. migrate_loses_nothing machine element before after c done h more a same)
