-- ===== src/Environments/Loader.antt =====
-- environments/environmentloader.go and environments/environmentloader_linux.go: the kinds of environment, their
-- factories (environments/impl/*/*factory.go) and the buffer of a console (cache/cache.go).
use pufferd.Common.{
  ℕ, zero, suc, String, List, [], ◌∷◌, map, none, some, if◌then◌else◌, ◌==◌, lookup,
}
use pufferd.Types.{other, Result, ok, err, Value}
use pufferd.Text.{◌<>◌}

-- The integers, of which a setting may be any.
pub data ℤ : Type 0 where
  pos negsuc : ℕ → ℤ

-- The factories that are linked.
pub data Factory : Type 0 where
  standard docker tty : Factory

-- `EnvironmentFactory.Key`.
unfoldable pub key : Factory → String
key standard = "standard"
key docker = "docker"
key tty = "tty"

-- What the factories set of an environment; `execution_function` says whose method it is, and the last four
-- are those of a container.
pub record Item : Type 0 where
  pub kind : String
  pub root_directory : String
  pub execution_function : Factory
  pub container_id : String
  pub image_name : String
  pub network_mode : String
  pub ports : List String

abbrev base_item : Factory → String → Item
base_item factory kind = record {
  kind = kind;
  root_directory = "";
  execution_function = factory;
  container_id = "";
  image_name = "";
  network_mode = "";
  ports = [];
}

-- `EnvironmentFactory.Create` of each package.
abbrev pub create_standard : String → Item
create_standard id = base_item standard "standard"

abbrev pub create_tty : String → Item
create_tty id = base_item tty "tty"

abbrev pub create_docker : String → Item
create_docker id = record (base_item docker "docker") {
  container_id = id;
  image_name = "pufferpanel/generic";
  network_mode = "host";
}

unfoldable pub create_item : Factory → String → Item
create_item standard id = create_standard id
create_item tty id = create_tty id
create_item docker id = create_docker id

unfoldable pub load_additional_modules : List (String × Factory) → List (String × Factory)
load_additional_modules mapping = ("tty", tty) ∷ mapping

unfoldable pub load_modules : List (String × Factory)
unfolding load_additional_modules
load_modules = load_additional_modules (("docker", docker) ∷ ("standard", standard) ∷ [])

-- `CreateCache`: how many messages a console keeps, by the setting "console.buffer".
unfoldable pub create_cache : ℤ → ℕ
create_cache (pos zero) = 50
create_cache (pos (suc n)) = suc n
create_cache (negsuc n) = 50

-- An environment as it is made: the item, the capacity of its console, and its listeners and wait group.
pub record Made : Type 0 where
  pub item : Item
  pub capacity : ℕ
  pub sockets : List ℕ
  pub wait : ℕ

-- `Create` behind `UnmarshalTo`.
unfoldable pub with_base : (String → String → String) → ℤ → String → String → Item → Made
unfolding create_cache
with_base join_path buffer folder id item = record {
  item = record item {
    root_directory = if item.root_directory == "" then join_path folder id else item.root_directory;
  };
  capacity = create_cache buffer;
  sockets = [];
  wait = 0;
}

-- `Create`. `UnmarshalTo` reads the section of the definition into an item.
unfoldable pub create :
    List (String × Factory)
    → (Value → Item → Result Item)
    → (String → String → String)
    → ℤ
    → String
    → String
    → String
    → Value
    → Result Made
unfolding with_base create_item
create mapping unmarshal_to join_path buffer environment_type folder id section =
    elim (lookup environment_type mapping) [
      | none ↦ err (other ("undefined environment: " <> environment_type))
      | some factory ↦ elim (unmarshal_to section (create_item factory id)) [
        | err e ↦ err e
        | ok item ↦ ok (with_base join_path buffer folder id item)
      ]
    ]

unfoldable pub get_supported_environments : List (String × Factory) → List String
unfolding key
get_supported_environments mapping = map (λ entry. key entry.1) mapping
