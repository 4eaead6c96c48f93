-- ===== src/Operations/Generated.antt =====
-- The generation of a process (programs/operations/operationprocess.go, the factories).
use pufferd.Common.{ℕ, String, List, [], ◌∷◌, Option, none, some, lookup}
use pufferd.Types.{Value, text}
use pufferd.World.{World, Outside}
use pufferd.World.Keeps.{
  Keeps, Keeps-bind, Keeps-pure, Keeps-crash, Keeps-option, Keeps-result, Keeps-need,
}
use pufferd.Operations.{
  generate_process, generate_from, string_arg, string_of, create_operation, Factory,
  command_mapping,
}

-- Generating a process calls nothing and changes nothing, whether it succeeds or not.
module _ {I : World → Type 0} (o : Outside) where
  string_of-Keeps : (v : Option Value) → Keeps I (string_of v)
  unfolding string_of
  string_of-Keeps none = Keeps-crash
  string_of-Keeps (some (text s)) = Keeps-pure s
  string_of-Keeps (some v) = Keeps-crash

  string_arg-Keeps : (args : List (String × Value)) (k : String) → Keeps I (string_arg args k)
  unfolding string_arg
  string_arg-Keeps args k = string_of-Keeps (lookup k args)

  create_operation-Keeps :
      (f : Factory) (args : List (String × Value)) (env : List (String × String))
      → Keeps I (create_operation o f args env)
  unfolding create_operation
  create_operation-Keeps Factory.command args env = Keeps-pure _
  create_operation-Keeps Factory.download args env = Keeps-pure _
  create_operation-Keeps Factory.mkdir args env =
      Keeps-bind (string_arg-Keeps args _) λ s. Keeps-pure _
  create_operation-Keeps Factory.sponge_forge_dl args env = Keeps-pure _
  create_operation-Keeps Factory.move args env =
      Keeps-bind (string_arg-Keeps args _)
        λ s. Keeps-bind (string_arg-Keeps args _) λ t. Keeps-pure _
  create_operation-Keeps Factory.write_file args env =
      Keeps-bind (string_arg-Keeps args _)
        λ s. Keeps-bind (string_arg-Keeps args _) λ t. Keeps-pure _
  create_operation-Keeps Factory.mojang_dl args env =
      Keeps-bind (string_arg-Keeps args _)
        λ s. Keeps-bind (string_arg-Keeps args _) λ t. Keeps-pure _
  create_operation-Keeps Factory.forge_dl args env =
      Keeps-bind (string_arg-Keeps args _)
        λ s. Keeps-bind (string_arg-Keeps args _) λ t. Keeps-pure _

  generate_from-Keeps :
      (ds : List Value) (m : List (String × Value)) (env : List (String × String))
      → Keeps I (generate_from o ds m env)
  unfolding generate_from
  generate_from-Keeps [] m env = Keeps-pure _
  generate_from-Keeps (d ∷ ds) m env =
      Keeps-result (o.metadata d) (λ e. Keeps-pure _)
        λ (kind, metadata). Keeps-option (lookup kind command_mapping) (Keeps-pure _) λ f.
          Keeps-bind (create_operation-Keeps f _ _)
            λ op. Keeps-bind (generate_from-Keeps ds m env) λ r. Keeps-pure _

  pub generate_process-Keeps :
      (ds : List Value) (e : Option ℕ) (m : List (String × Value)) (env : List (String × String))
      → Keeps I (generate_process o ds e m env)
  unfolding generate_process
  generate_process-Keeps ds e m env = Keeps-bind (Keeps-need e) λ p. generate_from-Keeps ds _ env
