-- ===== src/Operations/Run.antt =====
-- Running operations: `OperationProcess` of operationprocess.go and the `Run` of each operation
-- (impl/*/*.go).
use pufferd.Common.{
  ℕ, String, Bool, List, [], ◌∷◌, Option, none, some, is_some, if◌then◌else◌, not, ◌&&◌, ltb,
  length, insert,
}
use pufferd.Types.{Err, is_not_exist}
use pufferd.Text.{◌<>◌, split}
use pufferd.FilePath.{join, file_part}
use pufferd.World.{Call, Outside, Go, pure, crash, ◌>>=◌, ◌>>◌, ask, ask_flag, ask_names, tell}
use pufferd.Operations.{
  Operation, command, download, mkdir, move, write_file, mojang_dl, sponge_forge_dl, forge_dl,
}
use pufferd.Operations.Minecraft.{run_mojang_dl, run_forge_dl, run_sponge_forge_dl}

-- `BaseEnvironment.Execute` (environments/envs/environment.go): start, then call `WaitFunction`.
unfoldable pub execute :
    Outside → ℕ → String → List String → List (String × String) → Go (Option Err)
execute o e cmd args env = do
  failed ← ask o (Call.execute_async e cmd args env none)
  if is_some failed
      then pure failed
      else if o.has_wait_function e
      then ask o (Call.wait_for_main_process e)
      else crash

-- The parts of a command line, split at the spaces.
unfoldable pub run_line : Outside → ℕ → List (String × String) → List String → Go (Option Err)
unfolding execute
run_line o e env [] = crash
run_line o e env (cmd ∷ args) = execute o e cmd args env

unfoldable pub run_commands : Outside → ℕ → List (String × String) → List String → Go (Option Err)
unfolding run_line split
run_commands o e env [] = pure none
run_commands o e env (cmd ∷ cmds) = do
  tell o (Call.display e ("Executing: " <> cmd <> "\n") [])
  failed ← run_line o e env (split cmd b' ')
  if is_some failed then pure failed else run_commands o e env cmds

unfoldable pub run_downloads : Outside → ℕ → List String → Go (Option Err)
run_downloads o e [] = pure none
run_downloads o e (file ∷ files) = do
  tell o (Call.display e "Downloading file %s\n" (file ∷ []))
  failed ← ask o (Call.grab (o.root_directory e) file)
  if is_some failed then pure failed else run_downloads o e files

-- The target of each source that `validateMove` returns for a folder.
unfoldable pub into_folder : String → List String → List (String × String) → List (String × String)
unfolding join file_part
into_folder target [] result = result
into_folder target (v ∷ vs) result =
    into_folder target vs (insert v (join target (file_part v)) result)

unfoldable pub onto_file : String → List String → List (String × String) → List (String × String)
onto_file target [] result = result
onto_file target (v ∷ vs) result = onto_file target vs (insert v target result)

-- `validateMove`, given what `filepath.Glob` and `os.Stat` answer: `is_dir` is read only without an
-- error. `none` is an invalid move.
unfoldable pub validate_move :
    List String → String → Bool → Option Err → Option (List (String × String))
unfolding into_folder onto_file is_not_exist
validate_move source_files target is_dir missing =
    let several = ltb 1 (length source_files) in
    if is_some missing
    then (if is_not_exist missing && several
        then none
        else if not (is_not_exist missing)
        then none
        else some (onto_file target source_files []))
    else if is_dir && several
    then none
    else if is_dir
    then some (into_folder target source_files [])
    else some (onto_file target source_files [])

unfoldable pub rename_all : Outside → ℕ → String → String → List (String × String) → Go (Option Err)
rename_all o e source target [] = pure none
rename_all o e source target ((k, v) ∷ m) = do
  tell o (Call.display e "Moving file from %s to %s\n" (source ∷ target ∷ []))
  failed ← ask o (Call.rename k v)
  if is_some failed then pure failed else rename_all o e source target m

unfoldable pub run_move : Outside → ℕ → String → String → Go (Option Err)
unfolding validate_move rename_all
run_move o e source_file target_file = do
  let source = o.join_path (o.root_directory e) source_file
  let target = o.join_path (o.root_directory e) target_file
  (files, _) ← ask_names o (Call.glob source)
  (is_dir, missing) ← ask_flag o (Call.stat target)
  elim (validate_move files target is_dir missing) [
    | none ↦ pure none
    | some result ↦ rename_all o e source_file target_file result
  ]

-- `Mkdir.Run`.
abbrev pub run_mkdir : Outside → ℕ → String → Go (Option Err)
run_mkdir o e target =
    tell o (Call.display e "Creating directory: %s\n" (target ∷ []))
    >> ask o (Call.mkdir_all (o.join_path (o.root_directory e) target))

-- `WriteFile.Run`.
abbrev pub run_write_file : Outside → ℕ → String → String → Go (Option Err)
run_write_file o e target content =
    tell o (Call.display e "Writing some data to file: %s\n " (target ∷ []))
    >> ask o (Call.write_file (o.join_path (o.root_directory e) target) content)

-- `op.Run(env)`.
unfoldable pub run_operation : Outside → ℕ → Operation → Go (Option Err)
unfolding run_commands run_downloads run_move run_mojang_dl run_sponge_forge_dl run_forge_dl
run_operation o e (command cmds env) = run_commands o e env cmds
run_operation o e (download files) = run_downloads o e files
run_operation o e (mkdir target) = run_mkdir o e target
run_operation o e (move source target) = run_move o e source target
run_operation o e (write_file target content) = run_write_file o e target content
run_operation o e (mojang_dl version target) = run_mojang_dl o e version target
run_operation o e (sponge_forge_dl release) = run_sponge_forge_dl o e release
run_operation o e (forge_dl version filename) = run_forge_dl o e version filename

-- `OperationProcess.Run`, which is `HasNext` and `RunNext` in turn: the operations before the first
-- error, and that error.
unfoldable pub run_process : Outside → ℕ → List Operation → Go (Option Err)
unfolding run_operation
run_process o e [] = pure none
run_process o e (op ∷ ops) = do
  failed ← run_operation o e op
  if is_some failed then pure failed else run_process o e ops
