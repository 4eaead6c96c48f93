-- ===== src/Environments/Docker.antt =====
-- environments/impl/docker/docker.go: the environments that run a server in a container. The engine is
-- outside: what it answers is an arbitrary function of the calls made before. What is logged is left out.
pub mod Container
pub mod Holds
pub mod Latch
pub mod Usage
use pufferd.Common.{
  ℕ, ◌+◌, ◌-◌, String, Bool, List, [], ◌∷◌, ◌++◌, map, true, false, Option, none, some, is_some,
  if◌then◌else◌, not, ltb, leb, ◌&&◌, ◌||◌,
}
use pufferd.Types.{Err, server_offline, container_running, image_downloading, Result, ok, err}
use pufferd.Text.{◌<>◌}

-- `container.Config` and `container.HostConfig`, as far as they are set to what varies.
pub record Config : Type 0 where
  pub cmd : List String
  pub image : String
  pub working_dir : String
  pub env : List String
  pub user : String
  pub network_mode : String
  pub binds : List String
  pub port_bindings : String

pub data Call : Type 0 where
  new_client negotiate container_list image_list inspect stats read_stats attach start
        close_connection :
      Call
  image_pull display mkdir write : String → Call
  download_image : Call
  create : Config → Call
  stop : Call
  kill : String → Call

-- The callback of a call, by the pointer of its server; `none` is nil.
abbrev pub Callback : Type 0
Callback = Option ℕ

-- The fields of `docker`, with the counter of the wait group, the goroutines that copy a container's
-- output, and the calls of the engine and of the callbacks, newest first.
pub record State : Type 0 where
  pub client : Bool
  pub downloading_image : Bool
  pub wait : ℕ
  pub attending : List Callback
  pub trace : List Call
  pub told : List (ℕ × Bool)

-- What does not change: the settings, the engine's answers and what libraries compute.
pub record Engine : Type 0 where
  pub container_id : String
  pub image_name : String
  pub network_mode : String
  pub binds : List (String × String)
  pub ports : List String
  pub root_directory : String
  pub fails : List Call → Call → Option Err
  pub count : List Call → Call → ℕ
  pub running : List Call → Bool
  pub text : List Call → String
  pub negotiates_nil : Bool
  pub parse_port_specs : List String → Result String
  pub user : String
  pub signal_name : ℕ → String

pub data Ended (A : Type 0) : Type 0 where
  done : A → State → Ended A
  panicked : State → Ended A

abbrev pub Run : Type 0 → Type 0
Run A = State → Ended A

unfoldable pub pure : {A : Type 0} → A → Run A
pure a s = done a s

unfoldable pub continue : {A B : Type 0} → (A → Run B) → Ended A → Ended B
continue f (done a s) = f a s
continue f (panicked s) = panicked s

infixl 5 ◌>>=◌ ◌>>◌
unfoldable pub ◌>>=◌ : {A B : Type 0} → Run A → (A → Run B) → Run B
unfolding continue
◌>>=◌ m f s = continue f (m s)

unfoldable pub ◌>>◌ : {A B : Type 0} → Run A → Run B → Run B
unfolding ◌>>=◌
m >> k = m >>= λ _. k

-- A call of the engine or of the operating system, and its error.
unfoldable pub ask : Engine → Call → Run (Option Err)
ask o c s = done (o.fails s.trace c) (record s { trace = c ∷ s.trace })

-- A call that answers with a list: how long it is.
unfoldable pub ask_count : Engine → Call → Run (ℕ × Option Err)
ask_count o c s = done (o.count s.trace c, o.fails s.trace c) (record s { trace = c ∷ s.trace })

unfoldable pub set_downloading : Bool → Run (Unit {0})
set_downloading b s = done tt (record s { downloading_image = b })

unfoldable pub set_client : Bool → Run (Unit {0})
set_client b s = done tt (record s { client = b })

-- A panic, unless the call on a nil client returns.
unfoldable pub on_nil : Engine → Run (Unit {0})
on_nil o s = if o.negotiates_nil then done tt s else panicked s

-- A new client of the engine.
unfoldable pub connect : Engine → Run (Option Err)
unfolding pure ◌>>=◌ ◌>>◌ ask set_client on_nil
connect o = do
  e ← ask o new_client
  set_client (not (is_some e))
  if is_some e then on_nil o else (ask o negotiate >> pure tt)
  pure e

-- `getClient`, its error.
unfoldable pub get_client : Engine → Run (Option Err)
unfolding connect
get_client o s = if s.client then done none s else connect o s

-- `doesContainerExist`.
unfoldable pub does_container_exist : Engine → Run (Bool × Option Err)
unfolding ask_count ◌>>=◌ pure
does_container_exist o = do found ← ask_count o container_list; pure (ltb 0 found.0, found.1)

-- `stats.State.Running`.
unfoldable pub inspected : Engine → Run (Bool × Option Err)
inspected o s =
    done
      (
        if is_some (o.fails s.trace inspect) then false else o.running s.trace,
        o.fails s.trace inspect,
      )
      (record s { trace = inspect ∷ s.trace })

unfoldable pub is_running : Engine → Run (Bool × Option Err)
unfolding get_client does_container_exist inspected ◌>>=◌ pure
is_running o = do
  e ← get_client o
  if is_some e then pure (false, e) else do
    exists ← does_container_exist o
    if not exists.0 then pure (false, exists.1) else inspected o

-- The end of `pullImage`, behind the request for the image.
unfoldable pub pulled : Engine → Option Err → Run (Option Err)
unfolding ask set_downloading ◌>>=◌ ◌>>◌ pure
pulled o (some e) = pure (some e)
pulled o none = do
  e ← ask o download_image
  set_downloading false
  ask o (display "Downloaded image for container\n")
  pure e

unfoldable pub pull_image : Engine → Bool → Run (Option Err)
unfolding ask ask_count set_downloading pulled ◌>>=◌ ◌>>◌ pure
pull_image o force = do
  images ← ask_count o image_list
  if is_some images.1 then pure images.1 else do
    if leb 1 images.0 && not force then pure none else do
      ask o (display "Downloading image for container, please wait\n")
      set_downloading true
      e ← ask o (image_pull o.image_name)
      pulled o e

abbrev pub container_root : String
container_root = "/var/lib/pufferd/server/"

-- The configuration of `createContainer`, on Linux.
unfoldable pub config :
    Engine → String → List String → List (String × String) → String → String → Config
config o cmd args env root bindings = record {
  cmd = cmd ∷ args;
  image = o.image_name;
  working_dir = container_root;
  env = ("HOME=" <> container_root) ∷ map (λ entry. entry.0 <> "=" <> entry.1) env;
  user = o.user;
  network_mode = o.network_mode;
  binds = (root <> ":" <> container_root) ∷ map (λ entry. entry.0 <> ":" <> entry.1) o.binds;
  port_bindings = bindings;
}

unfoldable pub create_container :
    Engine → String → List String → List (String × String) → String → Run (Option Err)
unfolding pull_image config ask pure ◌>>=◌
create_container o cmd args env root = do
  e ← pull_image o false
  if is_some e then pure e else do
    elim (o.parse_port_specs o.ports) [
      | err failed ↦ pure (some failed)
      | ok bindings ↦ ask o (create (config o cmd args env root bindings))
    ]
