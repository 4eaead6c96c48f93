-- ===== src/Tests/Sample.antt =====
-- A small daemon: two servers, an outside that answers without errors, and its authorization server.
use pufferd.Common.{◌==◌, [], ◌∷◌, true, false, none, some}
use pufferd.Types.{other, ok, err, opaque, Program, FileInfo, servers_start}
use pufferd.Text.{◌<>◌, has_prefix}
use pufferd.World.{Outside, World}
use pufferd.Auth.{Authority}
use pufferd.Auth.Login.{Session}

abbrev pub nothing : Program
nothing = record {
  identifier = "";
  kind = "standard";
  display = "";
  variables = [];
  nil_variables = false;
  execution = record {
    program_name = "java";
    arguments = [];
    stop_command = "stop";
    stop_code = 0;
    disabled = false;
    auto_start = true;
    auto_restart_from_crash = true;
    auto_restart_from_graceful = false;
    pre_execution = [];
    post_execution = [];
    environment_variables = [];
  };
  installation = [];
  uninstallation = [];
  server_environment = opaque 0;
  crash_counter = 0;
  environment = none;
}

abbrev pub game : Program
game = record nothing { identifier = "game"; environment = some 0 }

abbrev pub lobby : Program
lobby = record nothing { identifier = "lobby"; environment = some 1 }

abbrev pub sample : World
sample = record {
  trace = [];
  heap = game ∷ lobby ∷ [];
  all_programs = 0 ∷ 1 ∷ [];
  queue = [];
  running = true;
}

abbrev pub log_file : FileInfo
log_file = record { name = "log.txt"; is_dir = false; size = 12; mod_time = 7 }

abbrev pub link : FileInfo
link = record { name = "link"; is_dir = false; size = 0; mod_time = 7 }

-- Nothing runs, no call fails, a folder holds a file and a link that leads out of it.
abbrev pub quiet : Outside
quiet = record {
  answer = λ t c. none;
  flag = λ t c. false;
  names = λ t c. [];
  reply = λ t c. "";
  entries = λ t c. log_file ∷ link ∷ [];
  size = λ t c. 0;
  info = λ t c. log_file;
  absolute = λ path. ok path;
  stats = λ t c. ("1", "2");
  max_ws_download_size = 100;
  contains_scope = λ scopes s. false;
  remove_invalid_symlinks = λ t files folder root. log_file ∷ [];
  error_text = λ e. "error";
  root_directory = λ e. "/srv/game";
  join_path = λ a b. a <> "/" <> b;
  ensure_access = λ t path root. has_prefix path root;
  replace_tokens = λ s m. s;
  replace_tokens_in_arr = λ l m. l;
  replace_tokens_in_map = λ l m. l;
  to_string_slice = λ v. [];
  metadata = λ v. err (other "no operation");
  has_wait_function = λ e. false;
  crash_limit = 3;
  server_folder = "/srv";
  cache_folder = "/cache";
  sha1 = λ s. s;
  launcher_json = λ s. err (other "no json");
  version_json = λ s. err (other "no json");
  sponge_downloads = λ s. ok [];
  sponge_download = λ s. err (other "no json");
  encode = λ p. ok p.identifier;
  is_null = λ s. s == "null";
  decode = λ p s. ok p;
  environment_type = λ v. ok "standard";
  decode_variables = λ s. ok [];
  new_uuid = λ t. "fresh";
  is_int64 = λ s. true;
  base_name = λ s. s;
  is_multipart = λ s. false;
  new_environment = λ t kind folder id v. ok 7;
}

-- All runs.
abbrev pub busy : Outside
busy = record quiet { flag = λ t c. true }

-- Every scope is held.
abbrev pub open_house : Outside
open_house = record quiet { contains_scope = λ scopes s. true }

-- Every call fails.
abbrev pub broken : Outside
broken = record quiet { answer = λ t c. some (other "broken"); ensure_access = λ t path root. true }

abbrev pub authority : Authority
authority = record {
  client_id = "daemon";
  client_secret = "secret";
  url = "http://panel";
  public_key_path = "key.pem";
  clock = λ t. 100000000000;
  status_of = λ t c. 401;
  token_reply = λ s. record { access_token = "fresh"; expires_in = 3600; error = "" };
  reply_map = λ s. ok [];
  decode_pem = λ s. some s;
  parse_key = λ s. ok 5;
  is_ecdsa = λ k. true;
  parse_token = λ k t. ok (("game", servers_start ∷ []) ∷ []);
}

abbrev pub session : Session
session = record { daemon_token = "old"; last_refresh = 0; expires_in = 0 }
