-- ===== src/Tests/Kinds.antt =====
-- The theorems on modules of operations and on the kinds of environment.
use pufferd.Common.{
  String, List, [], ◌∷◌, some, ◌≡◌, ◌≢◌, refl, lookup, ap, sym, if◌then◌else◌, ◌==◌, eq_other,
}
use pufferd.Types.{ok, opaque, Value, Result}
use pufferd.World.{Call, ret, record_call}
use pufferd.Text.{◌<>◌}
use pufferd.FilePath.{join}
use pufferd.Operations.Modules.{
  Plugin, unopened, factory_of, Provider, loaded, load_operations, load_operations-last,
}
use pufferd.Environments.Loader.{pos, Item, load_modules, create}
use pufferd.Environments.Kinds.{Ends, create-Ends}
use pufferd.Tests.Sample.{quiet, sample, log_file, link}

-- A module that calls itself "mkdir", like a built-in operation, before a file that is no module.
abbrev libraries : String → Plugin
libraries path =
    if path == join (join "modules" "operations") "log.txt" then factory_of "mkdir" 5 else unopened

load_operations-last_example :
    (m : List (String × Provider)) × (load_operations quiet "modules" libraries sample
      ≡ ret m (record_call (Call.read_dir (join "modules" "operations")) sample))
    × (lookup "mkdir" m ≡ some (loaded 5))
unfolding join
load_operations-last_example =
    load_operations-last quiet "modules" libraries "mkdir" 5 [] log_file (link ∷ []) sample refl
      refl refl (tt, tt)

abbrev read_nothing : Value → Item → Result Item
read_nothing section item = ok item

abbrev server_root : String
server_root = "/srv" <> "/" <> "game"

server_root-full : server_root ≢ ""
server_root-full = eq_other server_root "" refl

hidden_kept :
    (x y : Item)
    → read_nothing (opaque 0) x ≡ ok y
    → (y.container_id ≡ x.container_id) × (y.execution_function ≡ x.execution_function)
hidden_kept x y h =
    let e : x ≡ y = cc in (ap (λ i. i.container_id) (sym e), ap (λ i. i.execution_function) (sym e))

create-Ends_example : Ends "docker" "game" (read_nothing (opaque 0)) (
    create load_modules read_nothing
      (λ a b. a <> "/" <> b)
      (pos 0)
      "docker"
      "/srv"
      "game"
      (opaque 0))
create-Ends_example =
    create-Ends read_nothing (λ a b. a <> "/" <> b) (pos 0) "docker" "/srv" "game" (opaque 0)
      server_root-full hidden_kept
