-- ===== src/Migrate/Convert.antt =====
-- The two versions of a server definition in cmd/migrate.go, and the way from one to the other.
use pufferd.Common.{
  ℕ, String, Bool, List, [], ◌∷◌, false, Option, none, some, if◌then◌else◌, ◌==◌, lookup,
}
use pufferd.Types.{Value, text}

-- A map of JSON.
abbrev pub Entries : Type 0
Entries = List (String × Value)

pub record RunObject : Type 0 where
  pub arguments : List String
  pub program : String
  pub stop : String
  pub enabled : Bool
  pub auto_start : Bool
  pub auto_restart_from_crash : Bool
  pub auto_restart_from_graceful : Bool
  pub pre : List Entries
  pub post : List Entries
  pub stop_code : ℕ
  pub environment_variables : List (String × String)

pub record DataObject : Type 0 where
  pub description : String
  pub display : String
  pub internal : Bool
  pub required : Bool
  pub value : Value
  pub user_editable : Bool

-- `ProgramData`, with the operations of its two sections.
pub record ServerJson : Type 0 where
  pub variables : List (String × DataObject)
  pub display : String
  pub environment : Entries
  pub install : List Entries
  pub uninstall : List Entries
  pub kind : String
  pub identifier : String
  pub run : RunObject
  pub template : String

-- The library's types that the command fills: what it does not write is absent.
pub record Replaced : Type 0 where
  pub description : String
  pub display : String
  pub internal : Bool
  pub required : Bool
  pub value : Value
  pub user_editable : Bool
  pub kind : String

-- `apufferi.MetadataType`.
pub record Typed : Type 0 where
  pub kind : String
  pub metadata : Entries

pub record Server : Type 0 where
  pub variables : List (String × Replaced)
  pub display : String
  pub environment : String
  pub installation : List Typed
  pub uninstallation : List Typed
  pub kind : String
  pub identifier : String
  pub arguments : List String
  pub program_name : String
  pub stop_command : String
  pub disabled : Bool
  pub auto_start : Bool
  pub auto_restart_from_crash : Bool
  pub auto_restart_from_graceful : Bool
  pub pre_execution : List Typed
  pub post_execution : List Typed
  pub stop_code : ℕ
  pub environment_variables : List (String × String)

unfoldable pub convert_variable : DataObject → Replaced
convert_variable v = record {
  description = v.description;
  display = v.display;
  internal = v.internal;
  required = v.required;
  value = v.value;
  user_editable = v.user_editable;
  kind = "text";
}

-- The loop over the variables.
unfoldable pub convert_variables : List (String × DataObject) → List (String × Replaced)
unfolding convert_variable
convert_variables [] = []
convert_variables ((k, v) ∷ rest) = (k, convert_variable v) ∷ convert_variables rest

infixl 5 ◌>>=◌
abbrev pub ◌>>=◌ : {A B : Type 0} → Option A → (A → Option B) → Option B
none >>= f = none
some a >>= f = f a

-- `x.(string)`, which panics on anything else.
unfoldable pub as_string : Option Value → Option String
as_string (some (text s)) = some s
as_string _ = none

-- The loop over an entry that leaves its type out.
unfoldable pub without_type : Entries → Entries
without_type [] = []
without_type ((i, o) ∷ rest) = let c = without_type rest in if i == "type" then c else (i, o) ∷ c

unfoldable pub convert_entry : Entries → Option Typed
unfolding as_string without_type
convert_entry v = elim (as_string (lookup "type" v)) [
  | none ↦ none
  | some kind ↦ some (record { kind = kind; metadata = without_type v })
]

-- A loop over the operations of a section.
unfoldable pub convert_entries : List Entries → Option (List Typed)
unfolding convert_entry
convert_entries [] = some []
convert_entries (v ∷ rest) = do
  typed ← convert_entry v
  behind ← convert_entries rest
  some (typed ∷ behind)

-- The replacement of a definition, of which `none` is a panic.
unfoldable pub convert : ServerJson → Option Server
unfolding as_string convert_variables convert_entries
convert program = do
  environment ← as_string (lookup "type" program.environment)
  installation ← convert_entries program.install
  uninstallation ← convert_entries program.uninstall
  pre ← convert_entries program.run.pre
  post ← convert_entries program.run.post
  some (record {
    variables = convert_variables program.variables;
    display = program.display;
    environment = environment;
    installation = installation;
    uninstallation = uninstallation;
    kind = program.kind;
    identifier = program.identifier;
    arguments = program.run.arguments;
    program_name = program.run.program;
    stop_command = program.run.stop;
    disabled = false;
    auto_start = program.run.auto_start;
    auto_restart_from_crash = program.run.auto_restart_from_crash;
    auto_restart_from_graceful = program.run.auto_restart_from_graceful;
    pre_execution = pre;
    post_execution = post;
    stop_code = program.run.stop_code;
    environment_variables = program.run.environment_variables;
  })
