-- ===== src/Routing/Denied.antt =====
-- Requests that the handlers turn away.
use pufferd.Common.{ℕ, String, false, some, ◌==◌, ◌≡◌, arith, get_elem?}
use pufferd.Types.{is_not_exist, illegal_file_access, server_already_exists, Program, failure}
use pufferd.World.{World, Outside, ret, stepping}
use pufferd.Program.Files.{get_item, create_folder, open_file, delete_item}
use pufferd.Programs.{get, get_from_cache}
use pufferd.Routing.Handlers.{
  Request, get_file, file_answer, put_file, put_contents, delete_file, create_handler,
}

-- A name that leads out of the server's folder.
pub record Outlaw (o : Outside) (p : ℕ) (name : String) (w : World) : Type 0 where
  pub program : Program
  pub there : get_elem? w.heap p ≡ some program
  pub environment : ℕ
  pub has_environment : program.environment ≡ some environment
  pub no_access :
      o.ensure_access w.trace
        (o.join_path (o.root_directory environment) name)
        (o.root_directory environment)
      ≡ false

-- A request to get, write or delete a file of a server with an environment, by a name that is not empty
-- and leads out of the server's folder, is answered with an error, 400 for the first and 500 for the
-- others, and it calls and changes nothing. The write is not one of a form.
pub Outlaw-untouched :
    (o : Outside) (p : ℕ) (r : Request) (w : World)
    → Outlaw o p r.filename w
    → (r.filename == "") ≡ false
    → o.is_multipart r.content_type ≡ false
    → (get_file o p r w ≡ ret (failure 400 illegal_file_access) w)
      × (put_file o p r w ≡ ret (failure 500 illegal_file_access) w)
      × (delete_file o p r w ≡ ret (failure 500 illegal_file_access) w)
unfolding get_file file_answer get_item put_file put_contents create_folder open_file delete_file
    delete_item stepping is_not_exist
Outlaw-untouched o p r w l named plain = (
  ground (arith, l.there, l.has_environment, l.no_access),
  ground (arith, l.there, l.has_environment, l.no_access),
  ground (arith, l.there, l.has_environment, l.no_access),
)

-- A request with an identifier to create a server, where a managed server already has the identifier,
-- is answered with 409, and it calls and changes nothing.
pub create_conflict :
    (o : Outside) (p : ℕ) (r : Request) (w : World)
    → (r.id == "") ≡ false
    → get_from_cache r.id w ≡ some p
    → create_handler o r w ≡ ret (failure 409 server_already_exists) w
unfolding create_handler get stepping
create_conflict o p r w named cached = ground (arith)
