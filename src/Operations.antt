-- ===== src/Operations.antt =====
-- programs/operations: the operations that a server definition lists, their factories, and the
-- process that runs them in order (operationprocess.go, ops/operation.go, impl/*/factory.go).
pub mod Downloads
pub mod Minecraft
pub mod Run
pub mod Order
pub mod Modules
pub mod Steps
pub mod Generated
pub mod Cached
use pufferd.Common.{
  ℕ, zero, suc, ◌+◌, String, Bool, true, false, List, [], ◌∷◌, ◌++◌, Option, none, some, lookup,
  insert, length, nat_beq, if◌then◌else◌, ◌==◌,
}
use pufferd.Types.{
  Err, missing_factory, other, Result, ok, err, Value, text, texts, text_map, items, truth, opaque,
  Items, nil, cons,
}
use pufferd.World.{Call, World, Outside, Outcome, ret, panic, Go, pure, crash, need, ◌>>=◌, ◌>>◌}

pub data Operation : Type 0 where
  command : List String → List (String × String) → Operation
  download : List String → Operation
  mkdir : String → Operation
  move : String → String → Operation
  write_file : String → String → Operation
  mojang_dl : String → String → Operation
  sponge_forge_dl : String → Operation
  forge_dl : String → String → Operation

-- The factories of `loadCoreModules`, by their packages.
pub data Factory : Type 0 where
  command download mkdir move write_file mojang_dl sponge_forge_dl forge_dl : Factory

unfoldable pub key : Factory → String
key Factory.command = "command"
key Factory.download = "download"
key Factory.mkdir = "mkdir"
key Factory.move = "move"
key Factory.write_file = "writefile"
key Factory.mojang_dl = "mojangdl"
key Factory.sponge_forge_dl = "spongeforgedl"
key Factory.forge_dl = "forgedl"

abbrev pub core_factories : List Factory
core_factories =
    Factory.command ∷ Factory.download ∷ Factory.mkdir ∷ Factory.move ∷ Factory.write_file
    ∷ Factory.mojang_dl ∷ Factory.sponge_forge_dl ∷ Factory.forge_dl ∷ []

unfoldable pub register : List Factory → List (String × Factory) → List (String × Factory)
unfolding key
register [] m = m
register (f ∷ fs) m = register fs (insert (key f) f m)

-- `commandMapping` behind `loadCoreModules`.
unfoldable pub command_mapping : List (String × Factory)
unfolding register insert key
command_mapping = register core_factories []

unfoldable pub string_of : Option Value → Go String
string_of (some (text s)) = pure s
string_of _ = crash

-- `op.OperationArgs[k].(string)`: a missing key or another type is a panic.
unfoldable pub string_arg : List (String × Value) → String → Go String
unfolding string_of
string_arg args k = string_of (lookup k args)

-- `cast.ToStringSlice(op.OperationArgs[k])`, of nil where the key is missing.
unfoldable pub slice_arg : Outside → List (String × Value) → String → List String
slice_arg o args k = elim (lookup k args) [ some v ↦ o.to_string_slice v | none ↦ [] ]

abbrev pub release_type : Option Value → String
release_type (some (text s)) = s
release_type _ = "recommended"

-- `Create` of each factory.
abbrev create_command : Outside → List (String × Value) → List (String × String) → Operation
create_command o args env = command (slice_arg o args "commands") env

abbrev create_download : Outside → List (String × Value) → Operation
create_download o args = download (slice_arg o args "files")

abbrev create_mkdir : List (String × Value) → Go Operation
create_mkdir args = do target ← string_arg args "target"; pure (mkdir target)

abbrev create_move : List (String × Value) → Go Operation
create_move args = do
  source ← string_arg args "source"
  target ← string_arg args "target"
  pure (move source target)

abbrev create_write_file : List (String × Value) → Go Operation
create_write_file args = do
  content ← string_arg args "text"
  target ← string_arg args "target"
  pure (write_file target content)

abbrev create_mojang_dl : List (String × Value) → Go Operation
create_mojang_dl args = do
  version ← string_arg args "version"
  target ← string_arg args "target"
  pure (mojang_dl version target)

abbrev create_sponge_forge_dl : List (String × Value) → Operation
create_sponge_forge_dl args = sponge_forge_dl (release_type (lookup "releaseType" args))

abbrev create_forge_dl : List (String × Value) → Go Operation
create_forge_dl args = do
  version ← string_arg args "version"
  filename ← string_arg args "target"
  pure (forge_dl version filename)

-- `factory.Create`.
unfoldable pub create_operation :
    Outside → Factory → List (String × Value) → List (String × String) → Go Operation
create_operation o Factory.command args env = pure (create_command o args env)
create_operation o Factory.download args env = pure (create_download o args)
create_operation o Factory.mkdir args env = create_mkdir args
create_operation o Factory.move args env = create_move args
create_operation o Factory.write_file args env = create_write_file args
create_operation o Factory.mojang_dl args env = create_mojang_dl args
create_operation o Factory.sponge_forge_dl args env = pure (create_sponge_forge_dl args)
create_operation o Factory.forge_dl args env = create_forge_dl args

unfoldable pub count_items : Items → ℕ
count_items nil = 0
count_items (cons v vs) = suc (count_items vs)

-- The `switch` over the type of a metadata value.
unfoldable pub replace_value : Outside → List (String × Value) → Value → Value
unfolding count_items
replace_value o data_map (text r) = text (o.replace_tokens r data_map)
replace_value o data_map (texts r) = texts (o.replace_tokens_in_arr r data_map)
replace_value o data_map (text_map r) = text_map (o.replace_tokens_in_map r data_map)
replace_value o data_map (items r) =
    let temp = o.to_string_slice (items r) in
    if nat_beq (length temp) (count_items r)
    then texts (o.replace_tokens_in_arr temp data_map)
    else items r
replace_value o data_map (truth b) = truth b
replace_value o data_map (opaque n) = opaque n

unfoldable pub replace_values :
    Outside → List (String × Value) → List (String × Value) → List (String × Value)
unfolding replace_value
replace_values o data_map [] = []
replace_values o data_map ((k, v) ∷ m) =
    (k, replace_value o data_map v) ∷ replace_values o data_map m

unfoldable pub prepend : Operation → Result (List Operation) → Result (List Operation)
prepend op (ok ops) = ok (op ∷ ops)
prepend op (err e) = err e

-- The loop of `GenerateProcess` over the directions.
unfoldable pub generate_from :
    Outside
    → List Value
    → List (String × Value)
    → List (String × String)
    → Go (Result (List Operation))
generate_from o [] data_map env = pure (ok [])
generate_from o (d ∷ ds) data_map env =
    let rest = generate_from o ds data_map env in
    elim (o.metadata d) [
      | err e ↦ pure (err e)
      | ok (kind, metadata) ↦ elim (lookup kind command_mapping) [
        | none ↦ pure (err missing_factory)
        | some factory ↦
            create_operation o factory (replace_values o data_map metadata)
              (o.replace_tokens_in_map env data_map)
            >>= λ op. rest >>= λ r. pure (prepend op r)
      ]
    ]

-- `GenerateProcess`; a nil environment is a panic.
unfoldable pub generate_process :
    Outside
    → List Value
    → Option ℕ
    → List (String × Value)
    → List (String × String)
    → Go (Result (List Operation))
unfolding generate_from replace_values prepend command_mapping create_operation
generate_process o directions environment data_mapping env = do
  e ← need environment
  generate_from o directions (insert "rootDir" (text (o.root_directory e)) data_mapping) env
