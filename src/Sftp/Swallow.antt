-- ===== src/Sftp/Swallow.antt =====
-- Errors that `getFile` loses.
use pufferd.Common.{String, List, true, false, none, some, ◌≡◌, arith, ◌∷◌, ◌∙◌}
use pufferd.Types.{Err, is_not_exist, file_not_exist}
use pufferd.FilePath.{dir}
use pufferd.World.{Call, World, Outside, ret, record_call, stepping}
use pufferd.World.Runs.{bind-ret}
use pufferd.Sftp.{Request, new_path, open_or_create, get_file, file_write}
use pufferd.Sftp.Confined.{Approved, validate-ok}

-- Why a file that may be written could not be opened: it is there and does not open, `os.Stat`
-- failed, or it is not there, its folder is, and it cannot be created.
pub data Unopened (o : Outside) (t : List Call) (path : String) : Type 0 where
  not_opened :
      (e : Err)
      → o.answer t (Call.stat path) ≡ none
      → o.answer (Call.stat path ∷ t) (Call.open_flags path true) ≡ some e
      → Unopened o t path
  not_examined :
      (e : Err)
      → o.answer t (Call.stat path) ≡ some e
      → is_not_exist (some e) ≡ false
      → Unopened o t path
  not_created :
      (e : Err)
      → o.answer t (Call.stat path) ≡ some file_not_exist
      → o.answer (Call.stat path ∷ t) (Call.mkdir_all (dir path)) ≡ none
      → o.answer (Call.mkdir_all (dir path) ∷ Call.stat path ∷ t) (Call.create_file path) ≡ some e
      → Unopened o t path

open_or_create-Unopened :
    (o : Outside) (prefix path : String) (w : World)
    → Unopened o w.trace path
    → (v : World) × (open_or_create o prefix path w ≡ ret (none, none) v)
unfolding open_or_create stepping
open_or_create-Unopened o prefix path w (not_opened e a b) =
    (record_call (Call.open_flags path true) (record_call (Call.stat path) w), ground arith)
open_or_create-Unopened o prefix path w (not_examined e a b) =
    (record_call (Call.stat path) w, ground arith)
open_or_create-Unopened o prefix path w (not_created e a b c) = (
  record_call (Call.create_file path)
      (record_call (Call.mkdir_all (dir path)) (record_call (Call.stat path) w)),
  ground arith,
)

-- Writing a file of the session that cannot be opened or created returns a nil file and no error.
pub file_write_swallows :
    (o : Outside) (prefix : String) (r : Request) (w : World)
    → Approved o w.trace prefix (new_path prefix r.file_path)
    → Unopened o w.trace (new_path prefix r.file_path)
    → (v : World) × (file_write o prefix r w ≡ ret (none, none) v)
unfolding file_write get_file
file_write_swallows o prefix r w approved unopened =
    let (v, e) = open_or_create-Unopened o prefix (new_path prefix r.file_path) w unopened in
    (v, bind-ret _ _ w (validate-ok o prefix r.file_path w approved) ∙ e)
