-- ===== src/Sftp.antt =====
-- sftp/requestprefix.go: the handlers of an SFTP session, which see a server's folder (the prefix)
-- as their root.
pub mod Listing
pub mod Confined
pub mod Swallow
pub mod Server
pub mod Key
pub mod Sessions
pub mod Connect
use pufferd.Common.{
  ℕ, String, Bool, List, [], ◌∷◌, true, false, Option, none, some, is_some, if◌then◌else◌, not,
  ◌==◌, ◌||◌, leb, ltb, length, take, drop, ◌-◌,
}
use pufferd.Types.{Err, end_of_file, other, is_not_exist, Result, ok, err, FileInfo}
use pufferd.Text.{◌<>◌, has_prefix, trim_prefix}
use pufferd.FilePath.{clean, join, dir}
use pufferd.World.{
  Call, Outside, World, Outcome, ret, panic, Go, pure, crash, ◌>>=◌, ◌>>◌, ask, ask_flag,
  ask_entries, ask_info, ask_reply, tell, allowed,
}

-- `sftp.Request`, as far as it is read.
pub record Request : Type 0 where
  pub method : String
  pub file_path : String
  pub target : String

-- The path that a client's path stands for.
unfoldable pub new_path : String → String → String
new_path prefix path = clean (join prefix path)

-- `tryPrefix` and `validate`.
unfoldable pub validate : Outside → String → String → Go (Result String)
validate o prefix path = do
  access ← allowed o (new_path prefix path) prefix
  if access then pure (ok (new_path prefix path)) else pure (err (other "access denied"))

-- `filepath.Abs` of the prefix, or the prefix itself.
absolute_or : String → Result String → String
absolute_or prefix (ok path) = path
absolute_or prefix (err e) = prefix

-- `stripPrefix`.
unfoldable pub strip_prefix : Outside → String → String → String
unfolding absolute_or trim_prefix
strip_prefix o prefix path =
    let rest = trim_prefix path (absolute_or prefix (o.absolute prefix)) in
    if rest == "" then "/" else rest

-- `maskError`.
unfoldable pub mask_error : Outside → String → Err → Err
unfolding strip_prefix
mask_error o prefix e = other (strip_prefix o prefix (o.error_text e))

-- The file that a call opened: nil where it failed.
abbrev pub opened : String → Option Err → Option String
opened path none = some path
opened path (some e) = none

-- The part of `getFile` for a file that may have to be created. The `err` of the outer function is
-- hidden by the one of `os.Stat`, so that what fails here gives a nil file and no error.
unfoldable pub open_or_create : Outside → String → String → Go (Option String × Option Err)
unfolding is_not_exist
open_or_create o prefix file_path = do
  missing ← ask o (Call.stat file_path)
  if is_not_exist missing
      then (do
        unmade ← ask o (Call.mkdir_all (dir file_path))
        elim unmade [
          | some e ↦ pure (none, some (mask_error o prefix e))
          | none ↦
              ask o (Call.create_file file_path) >>= λ failed. pure (opened file_path failed, none)
        ])
      else if is_some missing
      then pure (none, none)
      else ask o (Call.open_flags file_path true) >>= λ failed. pure (opened file_path failed, none)

abbrev masked : Outside → String → Option Err → Option Err
masked o prefix none = none
masked o prefix (some e) = some (mask_error o prefix e)

-- `getFile`, with or without `os.O_CREATE` among the flags.
unfoldable pub get_file : Outside → String → String → Bool → Go (Option String × Option Err)
get_file o prefix path creating = validate o prefix path >>= λ checked. elim checked [
  | err e ↦ pure (none, some (mask_error o prefix e))
  | ok file_path ↦
      if creating
      then open_or_create o prefix file_path
      else ask o (Call.open_flags file_path false) >>= λ failed.
          pure (opened file_path failed, masked o prefix failed)
]

unfoldable pub file_read : Outside → String → Request → Go (Option String × Option Err)
file_read o prefix r = get_file o prefix r.file_path false

unfoldable pub file_write : Outside → String → Request → Go (Option String × Option Err)
file_write o prefix r = get_file o prefix r.file_path true

-- The validated target: "" where the request has none.
unfoldable pub validate_target : Outside → String → String → Go (Result String)
validate_target o prefix target = if target == "" then pure (ok "") else validate o prefix target

-- The `switch` of `Filecmd`.
unfoldable pub run_cmd : Outside → String → String → String → Go (Option Err)
run_cmd o method source target =
    if method == "SetStat" || method == "Setstat"
    then pure none
    else if method == "Rename"
    then ask o (Call.rename source target)
    else if method == "Rmdir"
    then ask o (Call.remove_all source)
    else if method == "Mkdir"
    then ask o (Call.mkdir source)
    else if method == "Symlink"
    then pure none
    else if method == "Remove"
    then ask o (Call.remove source)
    else pure (some (other ("Unknown request method: " <> method)))

-- `Filecmd`.
unfoldable pub file_cmd : Outside → String → Request → Go (Option Err)
file_cmd o prefix r = validate o prefix r.file_path >>= λ source. elim source [
  | err e ↦ pure (some (mask_error o prefix e))
  | ok source_name ↦ validate_target o prefix r.target >>= λ target. elim target [
    | err e ↦ pure (some (mask_error o prefix e))
    | ok target_name ↦ run_cmd o r.method source_name target_name
  ]
]

abbrev fail : Outside → String → Err → Go (Result (List FileInfo))
fail o prefix e = pure (err (mask_error o prefix e))

-- The "List" request; an error of `Readdir` is not masked.
unfoldable pub list_folder : Outside → String → String → Go (Result (List FileInfo))
list_folder o prefix source = ask o (Call.open_file source) >>= λ unopened. elim unopened [
  | some e ↦ fail o prefix e
  | none ↦ ask_entries o (Call.read_dir source) >>= λ (files, unread). elim unread [
    | some e ↦ pure (err e)
    | none ↦ ask o (Call.close_file source) >>= λ unclosed. elim unclosed [
      | some e ↦ fail o prefix e
      | none ↦ λ w. ret (ok (o.remove_invalid_symlinks w.trace files source prefix)) w
    ]
  ]
]

-- Opening, describing and closing a file, as "Stat" and "Readlink" do.
unfoldable pub describe_file : Outside → String → String → Go (Result (List FileInfo))
describe_file o prefix path = ask o (Call.open_file path) >>= λ unopened. elim unopened [
  | some e ↦ fail o prefix e
  | none ↦ ask_info o (Call.stat path) >>= λ (fi, unread). elim unread [
    | some e ↦ fail o prefix e
    | none ↦ ask o (Call.close_file path) >>= λ unclosed. elim unclosed [
      | some e ↦ fail o prefix e
      | none ↦ pure (ok (fi ∷ []))
    ]
  ]
]

-- A link's target: one that is not absolute is taken below the prefix.
unfoldable pub link_target : String → String → String
unfolding has_prefix
link_target prefix target = if has_prefix target "/" then target else prefix <> "/" <> target

unfoldable pub read_link : Outside → String → String → Go (Result (List FileInfo))
read_link o prefix source = ask_reply o (Call.readlink source) >>= λ (target, unread). elim unread [
  | some e ↦ fail o prefix e
  | none ↦ allowed o (link_target prefix target) prefix >>= λ access.
      if access
      then describe_file o prefix (link_target prefix target)
      else fail o prefix (other "access denied")
]

-- `Filelist`.
unfoldable pub file_list : Outside → String → Request → Go (Result (List FileInfo))
file_list o prefix r = validate o prefix r.file_path >>= λ source. elim source [
  | err e ↦ fail o prefix e
  | ok source_name ↦
      if r.method == "List"
      then list_folder o prefix source_name
      else if r.method == "Stat"
      then describe_file o prefix source_name
      else if r.method == "Readlink"
      then read_link o prefix source_name
      else pure (err (other ("Unknown request method: " <> r.method)))
]

-- `ListAt`: what is copied into a slice of `room` entries from an offset on, and the error.
unfoldable pub list_at {ℓ} : {A : Type ℓ} → List A → ℕ → ℕ → List A × Option Err
list_at f room offset =
    let copied = take room (drop offset f) in
    if leb (length f) offset
    then ([], some end_of_file)
    else if ltb (length copied) room
    then (copied, some end_of_file)
    else (copied, none)
