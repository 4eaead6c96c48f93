-- ===== src/Types.antt =====
-- The data that the parts of the daemon share: the errors of errors.go, the loosely typed values of
-- a server definition, and the program (programs/program.go). `apufferi.Server`, `Execution` and
-- `Variable` are library structs: the fields are those that the daemon reads or writes.
use pufferd.Common.{◌⊎◌, inl, inr, ◌≡◌, refl, ℕ, String, Bool, List, Option, some, true, false}

-- An error value. The named ones are the daemon's own; `file_exists` and `file_not_exist` are the
-- classes that `os.IsExist` and `os.IsNotExist` recognise; `other` is any error with its text.
pub data Err : Type 0 where
  server_offline illegal_file_access server_disabled container_running image_downloading : Err
  process_running missing_factory server_already_exists invalid_unix_time key_not_pem : Err
  cannot_validate_token missing_access_token not_bearer_token key_not_ecdsa missing_scope : Err
  file_exists file_not_exist end_of_file : Err
  other : String → Err

pub data Result (A : Type 0) : Type 0 where
  ok : A → Result A
  err : Err → Result A

-- `os.IsExist`, on an error that is there.
unfoldable pub is_exist : Option Err → Bool
is_exist (some file_exists) = true
is_exist _ = false

-- `os.IsNotExist`, false on nil.
unfoldable pub is_not_exist : Option Err → Bool
is_not_exist (some file_not_exist) = true
is_not_exist _ = false

-- `interface{}` values: strings, lists and maps of strings, lists of any values, and the rest.
mutual
  pub data Value : Type 0 where
    text : String → Value
    texts : List String → Value
    text_map : List (String × String) → Value
    items : Items → Value
    truth : Bool → Value
    opaque : ℕ → Value

  pub data Items : Type 0 where
    nil : Items
    cons : Value → Items → Items

pub record Variable : Type 0 where
  pub value : Value
  pub user_editable : Bool
  pub label : String
  pub description : String
  pub required : Bool

pub record Execution : Type 0 where
  pub program_name : String
  pub arguments : List String
  pub stop_command : String
  pub stop_code : ℕ
  pub disabled : Bool
  pub auto_start : Bool
  pub auto_restart_from_crash : Bool
  pub auto_restart_from_graceful : Bool
  pub pre_execution : List Value
  pub post_execution : List Value
  pub environment_variables : List (String × String)

-- `environment` is a pointer, `none` for nil.
pub record Program : Type 0 where
  pub identifier : String
  pub kind : String
  pub display : String
  pub variables : List (String × Variable)
  pub nil_variables : Bool
  pub execution : Execution
  pub installation : List Value
  pub uninstallation : List Value
  pub server_environment : Value
  pub crash_counter : ℕ
  pub environment : Option ℕ

-- The scopes that routes and messages ask for.
pub data Scope : Type 0 where
  servers_create servers_delete servers_edit_admin servers_edit servers_start servers_stop : Scope
  servers_install servers_files_get servers_files_put servers_console servers_console_send : Scope
  servers_stat : Scope

-- What the download operations read of remote answers.
pub record LauncherVersion : Type 0 where
  pub id : String
  pub url : String

pub record LauncherJson : Type 0 where
  pub versions : List LauncherVersion
  pub latest_release : String
  pub latest_snapshot : String

pub record SpongeDownload : Type 0 where
  pub forge : String
  pub minecraft : String
  pub artifacts : List (String × String)

pub record FileInfo : Type 0 where
  pub name : String
  pub is_dir : Bool
  pub size : ℕ
  pub mod_time : ℕ

-- messages/filedesc.go.
pub record FileDesc : Type 0 where
  pub name : String
  pub modified : ℕ
  pub size : ℕ
  pub file : Bool
  pub extension : String

-- `FileData` of programs/program.go: a directory's list, or an open file with its name, its path and
-- its size.
pub data FileData : Type 0 where
  listing : List FileDesc → FileData
  contents : String → String → ℕ → FileData

-- messages/message.go: what is written to a web socket.
pub data Message : Type 0 where
  stat_message : String → String → Message
  console_message : List String → Message
  pong_message unknown_command : Message
  file_error : String → Message
  file_list : List FileDesc → String → Message
  file_contents : String → String → Message
  file_url : String → String → Message

-- What a handler answers: a status, an error with its status, or a body (httpmodels.go). `stream` is
-- an open file, with its name, its path and its size.
pub data Response : Type 0 where
  status : ℕ → Response
  failure : ℕ → Err → Response
  server_id : String → Response
  server_data : List (String × Variable) → Response
  server_data_admin : Option ℕ → Response
  files : List FileDesc → Response
  stream : String → String → ℕ → Response
  server_stats : String × String → Response
  server_running : Bool → Response
  server_logs : ℕ → String → Response

pub Result-cases : {A : Type 0} (x : Result A) → ((e : Err) × (x ≡ err e)) ⊎ ((a : A) × (x ≡ ok a))
Result-cases (err e) = inl (e, refl)
Result-cases (ok a) = inr (a, refl)
