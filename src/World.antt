-- ===== src/World.antt =====
-- What the daemon does to the outside, and the global state that its packages keep. Every call of an
-- environment, the operating system or a remote server is an entry of a trace, newest first, and
-- what it answers is an arbitrary function of the calls made before: `Outside`. A Go function is a
-- state transformer that ends in a value or in a panic.
pub mod Keeps
pub mod Runs
use pufferd.Common.{
  ℕ, String, Bool, List, [], ◌∷◌, ◌++◌, Option, none, some, get_elem?, set, length,
}
use pufferd.Types.{
  Err, Result, Value, Program, LauncherJson, SpongeDownload, FileInfo, Scope, Variable, Message,
}

pub data Call : Type 0 where
  -- an environment, by its pointer
  display : ℕ → String → List String → Call
  is_running : ℕ → Call
  execute_async : ℕ → String → List String → List (String × String) → Option String → Call
  execute_in_main_process : ℕ → String → Call
  send_code : ℕ → ℕ → Call
  kill create delete wait_for_main_process get_stats : ℕ → Call
  get_console add_listener : ℕ → Call
  get_console_from : ℕ → String → Call
  -- the operating system
  mkdir mkdir_all remove remove_all create_file open_file stat read_dir : String → Call
  read_file readlink close_file read_file_dir glob : String → Call
  open_flags : String → Bool → Call
  rename : String → String → Call
  write_file copy_file : String → String → Call
  -- remote servers and downloads
  post_form : String → List (String × String) → String → Call
  http_get http_read http_close : String → Call
  grab : String → String → Call
  copy_body : String → String → Call
  -- the answer to a client
  send : Message → Call
  write_socket : ℕ → String → Call

-- The state that outlives a call: the trace, the programs by pointer, `allPrograms`, the start queue
-- and its flag.
pub record World : Type 0 where
  pub trace : List Call
  pub heap : List Program
  pub all_programs : List ℕ
  pub queue : List ℕ
  pub running : Bool

-- The answers of the outside, given the calls before; and what the third-party packages compute.
-- `decode` reads JSON into a program that is there, and `is_null` says whether a text is the JSON null.
pub record Outside : Type 0 where
  pub answer : List Call → Call → Option Err
  pub flag : List Call → Call → Bool
  pub names : List Call → Call → List String
  pub reply : List Call → Call → String
  pub entries : List Call → Call → List FileInfo
  pub size : List Call → Call → ℕ
  pub info : List Call → Call → FileInfo
  pub absolute : String → Result String
  pub stats : List Call → Call → String × String
  pub max_ws_download_size : ℕ
  pub contains_scope : List Scope → Scope → Bool
  pub remove_invalid_symlinks : List Call → List FileInfo → String → String → List FileInfo
  pub error_text : Err → String
  pub root_directory : ℕ → String
  pub join_path : String → String → String
  pub ensure_access : List Call → String → String → Bool
  pub replace_tokens : String → List (String × Value) → String
  pub replace_tokens_in_arr : List String → List (String × Value) → List String
  pub replace_tokens_in_map :
      List (String × String) → List (String × Value) → List (String × String)
  pub to_string_slice : Value → List String
  pub metadata : Value → Result (String × List (String × Value))
  pub has_wait_function : ℕ → Bool
  pub crash_limit : ℕ
  pub server_folder : String
  pub cache_folder : String
  pub sha1 : String → String
  pub launcher_json : String → Result LauncherJson
  pub version_json : String → Result (List (String × String))
  pub sponge_downloads : String → Result (List SpongeDownload)
  pub sponge_download : String → Result SpongeDownload
  pub encode : Program → Result String
  pub is_null : String → Bool
  pub decode : Program → String → Result Program
  pub environment_type : Value → Result String
  pub decode_variables : String → Result (List (String × Variable))
  pub new_uuid : List Call → String
  pub is_int64 : String → Bool
  pub base_name : String → String
  pub is_multipart : String → Bool
  pub new_environment : List Call → String → String → String → Value → Result ℕ

pub data Outcome (A : Type 0) : Type 0 where
  ret : A → World → Outcome A
  panic : World → Outcome A

abbrev pub Go : Type 0 → Type 0
Go A = World → Outcome A

unfoldable pub pure : {A : Type 0} → A → Go A
pure a w = ret a w

unfoldable pub crash : {A : Type 0} → Go A
crash w = panic w

infixl 5 ◌>>=◌ ◌>>◌
unfoldable pub ◌>>=◌ : {A B : Type 0} → Go A → (A → Go B) → Go B
◌>>=◌ m f w = elim (m w) [ ret a w' ↦ f a w' | panic w' ↦ panic w' ]

unfoldable pub ◌>>◌ : {A B : Type 0} → Go A → Go B → Go B
m >> k = m >>= λ _. k

-- The state in which a run ends, by a panic too.
abbrev pub final : {A : Type 0} → Outcome A → World
final (ret a w) = w
final (panic w) = w

abbrev pub record_call : Call → World → World
record_call c w = record w { trace = c ∷ w.trace }

-- A call whose only result is an error.
unfoldable pub ask : Outside → Call → Go (Option Err)
ask o c w = ret (o.answer w.trace c) (record_call c w)

-- A call that returns `(bool, error)`.
unfoldable pub ask_flag : Outside → Call → Go (Bool × Option Err)
ask_flag o c w = ret (o.flag w.trace c, o.answer w.trace c) (record_call c w)

-- A call that returns names and an error.
unfoldable pub ask_names : Outside → Call → Go (List String × Option Err)
ask_names o c w = ret (o.names w.trace c, o.answer w.trace c) (record_call c w)

-- A call that returns a text and an error.
unfoldable pub ask_reply : Outside → Call → Go (String × Option Err)
ask_reply o c w = ret (o.reply w.trace c, o.answer w.trace c) (record_call c w)

-- A call whose result is not read.
unfoldable pub tell : Outside → Call → Go (Unit {0})
tell o c w = ret tt (record_call c w)

-- A file's description and an error.
unfoldable pub ask_info : Outside → Call → Go (FileInfo × Option Err)
ask_info o c w = ret (o.info w.trace c, o.answer w.trace c) (record_call c w)

-- A directory's entries and an error.
unfoldable pub ask_entries : Outside → Call → Go (List FileInfo × Option Err)
ask_entries o c w = ret (o.entries w.trace c, o.answer w.trace c) (record_call c w)

-- `p.Environment.…`, a panic on a nil environment.
unfoldable pub need : Option ℕ → Go ℕ
need none = crash
need (some e) = pure e

-- The object behind a pointer.
unfoldable pub deref : ℕ → Go Program
deref p w = elim (get_elem? w.heap p) [ some program ↦ ret program w | none ↦ panic w ]

unfoldable pub store : ℕ → Program → Go (Unit {0})
store p program w = ret tt (record w { heap = set w.heap p program })

-- A new object, and its pointer.
unfoldable pub alloc : Program → Go ℕ
alloc program w = ret (length w.heap) (record w { heap = w.heap ++ program ∷ [] })

-- `apufferi.EnsureAccess`, which looks at the file system.
unfoldable pub allowed : Outside → String → String → Go Bool
allowed o path root w = ret (o.ensure_access w.trace path root) w

-- An error shown on a server's console.
unfoldable pub report : Outside → ℕ → String → Err → Go (Unit {0})
report o e message failed =
    tell o (Call.display e message []) >> tell o (Call.display e "%s\n" (o.error_text failed ∷ []))

-- The steps of a Go function, for a proof that follows a run.
unfoldable pub stepping : Unit {0}
unfolding pure crash ◌>>=◌ ◌>>◌ ask ask_flag ask_names ask_reply tell ask_entries ask_info need
    deref store alloc allowed report
stepping = tt
