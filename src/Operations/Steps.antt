-- ===== src/Operations/Steps.antt =====
-- The calls of the operations of a process and of their generation (programs/operations).
use pufferd.Common.{
  ℕ, String, Bool, List, [], ◌∷◌, true, false, Option, none, some, is_some, if◌then◌else◌, ◌≡◌,
  refl,
}
use pufferd.Types.{Err, Result, ok, err, SpongeDownload}
use pufferd.World.{
  Call, World, Outside, Go, pure, ◌>>=◌, record_call, ask, ask_flag, ask_names, ask_reply, tell,
}
use pufferd.World.Keeps.{
  Keeps, Keeps-then, Keeps-bind, Keeps-if, Keeps-pure, Keeps-crash, Keeps-option, Keeps-result,
  Keeps-ask, Keeps-ask_flag, Keeps-ask_names, Keeps-ask_reply, Keeps-tell,
}
use pufferd.Operations.{
  Operation, command, download, mkdir, move, write_file, mojang_dl, sponge_forge_dl, forge_dl,
}
use pufferd.Operations.Downloads.{
  get_into, download_file, download_file_to_cache, download_via_maven, cache_path, cache_is_valid,
  announce, fetch,
}
use pufferd.Operations.Run.{
  execute, run_line, run_commands, run_downloads, rename_all, run_move, run_operation, run_process,
}
use pufferd.Operations.Minecraft.{
  fetch_json, download_server, run_mojang_dl, run_forge_dl, first_download, version_data,
  install_sponge, run_sponge_forge_dl, installer_url, url_of, forge_version,
}
use pufferd.Text.{replace_all}

-- The calls that an operation may make: not those that start, signal, stop, create or delete the
-- server, or remove a file.
abbrev pub is_step : Call → Bool
is_step (Call.execute_async e cmd args env (some id)) = false
is_step (Call.execute_in_main_process e cmd) = false
is_step (Call.send_code e n) = false
is_step (Call.kill e) = false
is_step (Call.create e) = false
is_step (Call.delete e) = false
is_step (Call.is_running e) = false
is_step (Call.remove p) = false
is_step (Call.remove_all p) = false
is_step _ = true

module _ (I : World → Type 0) (o : Outside)
    (keep : (c : Call) (w : World) → is_step c ≡ true → I w → I (record_call c w)) where
  step_ask : (c : Call) → is_step c ≡ true → Keeps I (ask o c)
  step_ask = Keeps-ask I o (λ c. is_step c ≡ true) keep

  step_ask_flag : (c : Call) → is_step c ≡ true → Keeps I (ask_flag o c)
  step_ask_flag = Keeps-ask_flag I o (λ c. is_step c ≡ true) keep

  step_ask_names : (c : Call) → is_step c ≡ true → Keeps I (ask_names o c)
  step_ask_names = Keeps-ask_names I o (λ c. is_step c ≡ true) keep

  step_ask_reply : (c : Call) → is_step c ≡ true → Keeps I (ask_reply o c)
  step_ask_reply = Keeps-ask_reply I o (λ c. is_step c ≡ true) keep

  step_tell : (c : Call) → is_step c ≡ true → Keeps I (tell o c)
  step_tell = Keeps-tell I o (λ c. is_step c ≡ true) keep

  execute-Keeps :
      (e : ℕ) (cmd : String) (args : List String) (env : List (String × String))
      → Keeps I (execute o e cmd args env)
  unfolding execute
  execute-Keeps e cmd args env =
      Keeps-bind (step_ask _ refl)
        λ failed. Keeps-if _ (Keeps-pure failed) (Keeps-if _ (step_ask _ refl) Keeps-crash)

  run_line-Keeps :
      (e : ℕ) (env : List (String × String)) (parts : List String)
      → Keeps I (run_line o e env parts)
  unfolding run_line
  run_line-Keeps e env [] = Keeps-crash
  run_line-Keeps e env (cmd ∷ args) = execute-Keeps e cmd args env

  -- A step, and the rest only if it gave no error.
  or_stop :
      {m k : Go (Option Err)}
      → Keeps I m
      → Keeps I k
      → Keeps I (m >>= λ failed. if is_some failed then pure failed else k)
  or_stop hm hk = Keeps-bind hm λ failed. Keeps-if _ (Keeps-pure failed) hk

  run_commands-Keeps :
      (e : ℕ) (env : List (String × String)) (cmds : List String)
      → Keeps I (run_commands o e env cmds)
  unfolding run_commands
  run_commands-Keeps e env [] = Keeps-pure none
  run_commands-Keeps e env (cmd ∷ cmds) =
      Keeps-then (step_tell _ refl)
        (or_stop (run_line-Keeps e env _) (run_commands-Keeps e env cmds))

  run_downloads-Keeps : (e : ℕ) (files : List String) → Keeps I (run_downloads o e files)
  unfolding run_downloads
  run_downloads-Keeps e [] = Keeps-pure none
  run_downloads-Keeps e (file ∷ files) =
      Keeps-then (step_tell _ refl) (or_stop (step_ask _ refl) (run_downloads-Keeps e files))

  rename_all-Keeps :
      (e : ℕ) (source target : String) (m : List (String × String))
      → Keeps I (rename_all o e source target m)
  unfolding rename_all
  rename_all-Keeps e source target [] = Keeps-pure none
  rename_all-Keeps e source target ((k, v) ∷ m) =
      Keeps-then (step_tell _ refl) (or_stop (step_ask _ refl) (rename_all-Keeps e source target m))

  run_move-Keeps : (e : ℕ) (source target : String) → Keeps I (run_move o e source target)
  unfolding run_move
  run_move-Keeps e source target = Keeps-bind (step_ask_names _ refl) λ files.
      Keeps-bind (step_ask_flag _ refl)
        λ info. Keeps-option _ (Keeps-pure none) (λ result. rename_all-Keeps e source target result)

  fetch_json-Keeps :
      {A : Type 0} (parse : String → Result A) (url : String) → Keeps I (fetch_json o parse url)
  unfolding fetch_json
  fetch_json-Keeps parse url = Keeps-bind (step_ask _ refl) λ failed.
      Keeps-option failed
        (Keeps-bind (step_ask_reply _ refl) λ body.
          Keeps-result (parse body.0) (λ e. Keeps-pure (err e))
            (λ a.
              Keeps-bind (step_ask _ refl)
                λ closed. Keeps-option closed (Keeps-pure (ok a)) (λ e. Keeps-pure (err e))))
        (λ e. Keeps-pure (err e))

  get_into-Keeps : (url target : String) → Keeps I (get_into o url target)
  get_into-Keeps url target = or_stop (step_ask _ refl) (step_ask _ refl)

  download_file-Keeps : (url target : String) (e : ℕ) → Keeps I (download_file o url target e)
  unfolding download_file
  download_file-Keeps url target e =
      or_stop (step_ask _ refl) (Keeps-then (step_tell _ refl) (get_into-Keeps url _))

  download_file_to_cache-Keeps :
      (url target : String) → Keeps I (download_file_to_cache o url target)
  unfolding download_file_to_cache
  download_file_to_cache-Keeps url target =
      Keeps-bind (step_ask _ refl)
        λ made. Keeps-if _ (Keeps-pure made) (or_stop (step_ask _ refl) (get_into-Keeps url target))

  cache_is_valid-Keeps : (url path : String) → Keeps I (cache_is_valid o url path)
  unfolding cache_is_valid
  cache_is_valid-Keeps url path = Keeps-bind (step_ask_reply _ refl) λ content.
      Keeps-if _ Keeps-crash (
        Keeps-bind (step_ask _ refl) λ failed. Keeps-if _ (Keeps-pure false) (
          Keeps-bind (step_ask_reply _ refl)
            λ expected. Keeps-if _ (Keeps-pure false) (Keeps-pure _)))

  announce-Keeps : (url : String) (env : Option ℕ) → Keeps I (announce o url env)
  unfolding announce
  announce-Keeps url none = Keeps-pure tt
  announce-Keeps url (some e) = step_tell _ refl

  fetch-Keeps :
      (url path : String) (env : Option ℕ) (use_cache : Bool) (failed : Option Err)
      → Keeps I (fetch o url path env use_cache failed)
  unfolding fetch
  fetch-Keeps url path env use_cache failed =
      Keeps-bind
        (Keeps-if use_cache (Keeps-pure failed)
          (Keeps-then (announce-Keeps url env) (download_file_to_cache-Keeps url path)))
        λ last. Keeps-if _ (Keeps-pure _) (Keeps-pure _)

  download_via_maven-Keeps :
      (url : String) (env : Option ℕ) → Keeps I (download_via_maven o url env)
  unfolding download_via_maven
  download_via_maven-Keeps url env = Keeps-bind (step_ask _ refl) λ failed.
      Keeps-if _ (fetch-Keeps url (cache_path o url) env _ failed) (
        Keeps-bind (cache_is_valid-Keeps url (cache_path o url))
          λ valid. fetch-Keeps url (cache_path o url) env valid failed)

  run_forge_dl-Keeps : (e : ℕ) (version name : String) → Keeps I (run_forge_dl o e version name)
  unfolding run_forge_dl
  run_forge_dl-Keeps e version name =
      Keeps-bind
        (download_via_maven-Keeps (replace_all installer_url "${version}" version) (some e))
        λ file. Keeps-if _ (Keeps-pure _) (step_ask _ refl)

  download_server-Keeps : (e : ℕ) (url target : String) → Keeps I (download_server o e url target)
  unfolding download_server
  download_server-Keeps e url target = Keeps-bind (fetch_json-Keeps _ url) λ read.
      Keeps-result read (λ failed. Keeps-pure (some failed))
        (λ downloads. Keeps-then (step_tell _ refl) (download_file-Keeps _ target e))

  run_mojang_dl-Keeps :
      (e : ℕ) (version target : String) → Keeps I (run_mojang_dl o e version target)
  unfolding run_mojang_dl
  run_mojang_dl-Keeps e version target = Keeps-bind (fetch_json-Keeps _ _) λ read.
      Keeps-result read (λ failed. Keeps-pure (some failed))
        (λ launcher.
          Keeps-option _ (Keeps-then (step_tell _ refl) (Keeps-pure _))
            (λ v. Keeps-then (step_tell _ refl) (download_server-Keeps e v.url target)))

  first_download-Keeps : (all : Result (List SpongeDownload)) → Keeps I (first_download all)
  unfolding first_download
  first_download-Keeps (err e) = Keeps-pure _
  first_download-Keeps (ok []) = Keeps-crash
  first_download-Keeps (ok (d ∷ ds)) = Keeps-pure _

  install_sponge-Keeps : (e : ℕ) (d : SpongeDownload) → Keeps I (install_sponge o e d)
  unfolding install_sponge
  install_sponge-Keeps e d =
      or_stop (run_forge_dl-Keeps e (forge_version d) "forge-installer.jar") (
        Keeps-bind (step_ask _ refl) λ made. Keeps-if _ (Keeps-pure made) (
          Keeps-bind (download_via_maven-Keeps (url_of "" d.artifacts) (some e))
            λ file. Keeps-if _ (Keeps-pure _) (step_ask _ refl)))

  run_sponge_forge_dl-Keeps : (e : ℕ) (release : String) → Keeps I (run_sponge_forge_dl o e release)
  unfolding run_sponge_forge_dl version_data
  run_sponge_forge_dl-Keeps e release =
      Keeps-bind
        (Keeps-if _ (Keeps-bind (fetch_json-Keeps _ _) first_download-Keeps) (fetch_json-Keeps _ _))
        λ read.
          Keeps-result read (λ failed. Keeps-pure (some failed))
            (λ d. Keeps-if _ (install_sponge-Keeps e d) (Keeps-pure _))

  run_operation-Keeps : (e : ℕ) (op : Operation) → Keeps I (run_operation o e op)
  unfolding run_operation
  run_operation-Keeps e (command cmds env) = run_commands-Keeps e env cmds
  run_operation-Keeps e (download files) = run_downloads-Keeps e files
  run_operation-Keeps e (mkdir target) = Keeps-then (step_tell _ refl) (step_ask _ refl)
  run_operation-Keeps e (move source target) = run_move-Keeps e source target
  run_operation-Keeps e (write_file target content) =
      Keeps-then (step_tell _ refl) (step_ask _ refl)
  run_operation-Keeps e (mojang_dl version target) = run_mojang_dl-Keeps e version target
  run_operation-Keeps e (sponge_forge_dl release) = run_sponge_forge_dl-Keeps e release
  run_operation-Keeps e (forge_dl version name) = run_forge_dl-Keeps e version name

  -- An invariant that every call of an operation keeps, a whole process keeps.
  pub run_process-Keeps : (e : ℕ) (ops : List Operation) → Keeps I (run_process o e ops)
  unfolding run_process
  run_process-Keeps e [] = Keeps-pure none
  run_process-Keeps e (op ∷ ops) = or_stop (run_operation-Keeps e op) (run_process-Keeps e ops)
