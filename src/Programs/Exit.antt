-- ===== src/Programs/Exit.antt =====
-- The exit of a server's process and the start queue (programs/program.go).
use pufferd.Common.{
  ℕ, ◌+◌, Bool, [], ◌∷◌, ◌++◌, true, false, none, some, if◌then◌else◌, not, ◌&&◌, ltb, insert,
}
use pufferd.Types.{ok, err, truth, Program}
use pufferd.World.{
  Call, Outside, World, ret, Go, pure, ◌>>=◌, ◌>>◌, tell, need, deref, store, report,
}
use pufferd.Operations.{generate_process}
use pufferd.Operations.Run.{run_process}
use pufferd.Program.{data_to_map}
use pufferd.Program.Lifecycle.{start, is_running}

-- `InitService`, without the ticker.
unfoldable pub init_service : World → World
init_service w = record w { queue = []; running = true }

-- `StartViaService`.
unfoldable pub start_via_service : ℕ → World → World
start_via_service p w = if w.running then record w { queue = w.queue ++ p ∷ [] } else w

-- `ShutdownService`, without the ticker.
unfoldable pub shutdown_service : World → World
shutdown_service w = record w { running = false }

-- One tick of `processQueue`; the error of `Start` is logged, and nothing else.
unfoldable pub process_queue : Outside → Go (Unit {0})
process_queue o w = elim (w.queue) [
  | [] ↦ ret tt w
  | p ∷ ps ↦
      (do
        program ← deref p
        (run, _) ← is_running o program
        if run then pure tt else start o program >> pure tt)
        (record w { queue = ps })
]

-- Whether `afterExit` starts the server again, from the counter behind its first lines.
unfoldable pub restarts : ℕ → Program → Bool → Bool
restarts limit p graceful =
    if not p.execution.auto_restart_from_crash && not p.execution.auto_restart_from_graceful
    then false
    else if graceful && p.execution.auto_restart_from_graceful
    then true
    else not graceful && p.execution.auto_restart_from_crash && ltb p.crash_counter limit

-- The last part of `afterExit`.
unfoldable pub restart : Outside → ℕ → Bool → Go (Unit {0})
unfolding restarts start_via_service
restart o p graceful = do
  program ← deref p
  if not (restarts o.crash_limit program graceful) then pure tt else do
    if graceful
        then pure tt
        else store p (record program { crash_counter = program.crash_counter + 1 })
    λ w. ret tt (start_via_service p w)

-- The post-execution steps: whether they went through.
unfoldable pub post_steps : Outside → Program → ℕ → Bool → Go Bool
post_steps o program e graceful = do
  generated ←
      generate_process o program.execution.post_execution program.environment
        (insert "success" (truth graceful) (data_to_map program.variables))
        program.execution.environment_variables
  elim generated [
    | err failed ↦ report o e "Failed to run post-execution steps\n" failed >> pure false
    | ok ops ↦
        tell o (Call.display e "Running post-execution steps\n" [])
        >> (run_process o e ops >>= λ result. elim result [
          | some failed ↦ report o e "Failed to run post-execution steps\n" failed >> pure false
          | none ↦ pure true
        ])
  ]

abbrev pub reset_crashes : Bool → Program → Program
reset_crashes graceful p = if graceful then record p { crash_counter = 0 } else p

-- `afterExit`, the callback of the server's process.
unfoldable pub after_exit : Outside → ℕ → Bool → Go (Unit {0})
after_exit o p graceful = do
  found ← deref p
  let program = reset_crashes graceful found
  store p program
  e ← need program.environment
  done ← post_steps o program e graceful
  if done then restart o p graceful else pure tt
