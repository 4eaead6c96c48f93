-- ===== src/Operations/Modules.antt =====
-- The operations that a definition may name: the built-in ones and those of modules, which are libraries in a
-- folder of the daemon (programs/operations/operationprocess.go, operationprocess_linux.go).
use pufferd.Common.{
  ℕ, String, List, [], ◌∷◌, ◌++◌, none, some, is_some, if◌then◌else◌, ◌&&◌, ◌≡◌, ◌≢◌, refl, arith,
  lookup, insert, lookup-insert, eq_iff, eq_refl, All, ap, ◌∙◌, written, Bool-cases, inl, inr,
}
use pufferd.Types.{is_not_exist, FileInfo}
use pufferd.FilePath.{join}
use pufferd.World.{Call, World, Outside, ret, Go, pure, ◌>>=◌, ask_entries, record_call, stepping}
use pufferd.Operations.{Factory, command_mapping}

-- What opening a library of Go's `plugin` and asking it for its `Factory` comes to: it cannot be opened, it has
-- none, it has one that is no factory of operations, or one with its key, told apart by a number.
pub data Plugin : Type 0 where
  unopened no_symbol wrong_symbol : Plugin
  factory_of : String → ℕ → Plugin

-- A factory of `commandMapping`.
pub data Provider : Type 0 where
  core : Factory → Provider
  loaded : ℕ → Provider

unfoldable pub core_mapping : List (String × Factory) → List (String × Provider)
core_mapping [] = []
core_mapping ((k, f) ∷ m) = (k, core f) ∷ core_mapping m

-- One round of the loop of `loadOpModules`; what cannot be used is logged and passed over.
unfoldable pub load_op_module : Plugin → List (String × Provider) → List (String × Provider)
load_op_module unopened m = m
load_op_module no_symbol m = m
load_op_module wrong_symbol m = m
load_op_module (factory_of k n) m = insert k (loaded n) m

unfoldable pub load_files :
    (String → Plugin) → String → List FileInfo → List (String × Provider) → List (String × Provider)
load_files plugin directory [] m = m
load_files plugin directory (file ∷ files) m =
    load_files plugin directory files (load_op_module (plugin (join directory file.name)) m)

-- `loadOpModules`; an error of reading the folder is only logged, unless the folder is not there.
unfoldable pub load_op_modules :
    Outside → String → (String → Plugin) → List (String × Provider) → Go (List (String × Provider))
unfolding load_files load_op_module
load_op_modules o modules plugin m = do
  let directory = join modules "operations"
  (files, failed) ← ask_entries o (Call.read_dir directory)
  if is_some failed && is_not_exist failed
      then pure m
      else pure (load_files plugin directory files m)

-- `LoadOperations`.
unfoldable pub load_operations :
    Outside → String → (String → Plugin) → Go (List (String × Provider))
unfolding load_op_modules core_mapping
load_operations o modules plugin = load_op_modules o modules plugin (core_mapping command_mapping)

-- A library that does not offer an operation of this name.
abbrev pub OffersOther : String → Plugin → Type 0
OffersOther k (factory_of j n) = j ≢ k
OffersOther k _ = Unit

module _ (plugin : String → Plugin) (directory : String) where
  abbrev at_file : FileInfo → Plugin
  at_file file = plugin (join directory file.name)

  load_op_module-other :
      (k : String) (x : Plugin) (m : List (String × Provider))
      → OffersOther k x
      → lookup k (load_op_module x m) ≡ lookup k m
  unfolding load_op_module
  load_op_module-other k unopened m h = refl
  load_op_module-other k no_symbol m h = refl
  load_op_module-other k wrong_symbol m h = refl
  load_op_module-other k (factory_of j n) m h =
      ground (arith, lookup-insert j k (loaded n) m, eq_iff j k)

  load_files-other :
      (k : String) (files : List FileInfo) (m : List (String × Provider))
      → All (λ file. OffersOther k (at_file file)) files
      → lookup k (load_files plugin directory files m) ≡ lookup k m
  unfolding load_files
  load_files-other k [] m h = refl
  load_files-other k (file ∷ files) m (h, hs) =
      load_files-other k files _ hs ∙ load_op_module-other k (at_file file) m h

  load_files-last :
      (k : String) (n : ℕ) (before : List FileInfo) (file : FileInfo) (after : List FileInfo)
      (m : List (String × Provider))
      → at_file file ≡ factory_of k n
      → All (λ later. OffersOther k (at_file later)) after
      → lookup k (load_files plugin directory (before ++ file ∷ after) m) ≡ some (loaded n)
  unfolding load_files load_op_module
  load_files-last k n [] file after m is h =
      load_files-other k after _ h
      ∙ ap (λ x. lookup k (load_op_module x m)) is
      ∙ lookup-insert k k (loaded n) m
      ∙ ap (λ b. written b (loaded n) (lookup k m)) (eq_refl k)
  load_files-last k n (f ∷ before) file after m is h = load_files-last k n before file after _ is h

-- After the operations are loaded, a name stands for the last module, in the order of the folder, that offers it,
-- also where it is the name of a built-in operation, which the module then replaces without a word.
pub load_operations-last :
    (o : Outside) (modules : String) (plugin : String → Plugin) (k : String) (n : ℕ)
    (before : List FileInfo) (file : FileInfo) (after : List FileInfo) (w : World)
    → o.entries w.trace (Call.read_dir (join modules "operations")) ≡ before ++ file ∷ after
    → o.answer w.trace (Call.read_dir (join modules "operations")) ≡ none
    → plugin (join (join modules "operations") file.name) ≡ factory_of k n
    → All (λ later. OffersOther k (plugin (join (join modules "operations") later.name))) after
    → (m : List (String × Provider)) × (load_operations o modules plugin w
        ≡ ret m (record_call (Call.read_dir (join modules "operations")) w))
      × (lookup k m ≡ some (loaded n))
unfolding load_operations load_op_modules stepping
load_operations-last o modules plugin k n before file after w listed no_error is h = (
  load_files plugin (join modules "operations") (before ++ file ∷ after)
      (core_mapping command_mapping),
  rw (listed, no_error) refl,
  load_files-last plugin (join modules "operations") k n before file after _ is h,
)

-- A name that no module offers stands for the built-in operation, or for none.
pub load_operations-core :
    (o : Outside) (modules : String) (plugin : String → Plugin) (k : String) (w : World)
    → All
        (λ file. OffersOther k (plugin (join (join modules "operations") file.name)))
        (o.entries w.trace (Call.read_dir (join modules "operations")))
    → (m : List (String × Provider)) × (load_operations o modules plugin w
        ≡ ret m (record_call (Call.read_dir (join modules "operations")) w))
      × (lookup k m ≡ lookup k (core_mapping command_mapping))
unfolding load_operations load_op_modules stepping
load_operations-core o modules plugin k w h =
    elim (Bool-cases (
      is_some (o.answer w.trace (Call.read_dir (join modules "operations")))
      && is_not_exist (o.answer w.trace (Call.read_dir (join modules "operations"))))) [
        | inl gone ↦ (core_mapping command_mapping, rw gone refl, refl)
        | inr read ↦ (
          load_files plugin (join modules "operations")
              (o.entries w.trace (Call.read_dir (join modules "operations")))
              (core_mapping command_mapping),
          rw read refl,
          load_files-other plugin _ k _ _ h,
        )
      ]
