-- ===== src/Programs/Whole/Queueing.antt =====
-- The exits of processes and the ticks of the start queue (programs/program.go), over the whole of the servers.
use pufferd.Common.{
  ℕ, ◌<◌, Bool, List, [], ◌∷◌, true, false, if◌then◌else◌, ◌≡◌, refl, arith, sym, ◌∙◌, subst,
  get_elem?, get_elem?-in, Bool-cases, length, All, All-append, Option-cases, inl, inr,
}
use pufferd.Types.{Err, Program}
use pufferd.World.{World, Outside, pure, ◌>>=◌, ◌>>◌, final, report, deref}
use pufferd.World.Keeps.{
  Keeps, Keeps-pure, Keeps-bind, Keeps-then, Keeps-if, Keeps-option, Keeps-result, Keeps-need,
}
use pufferd.Operations.Steps.{run_process-Keeps}
use pufferd.Operations.Generated.{generate_process-Keeps}
use pufferd.Program.Keeps.{is_running-Keeps, start-Keeps, tell_any, report_any}
use pufferd.Programs.Exit.{
  after_exit, post_steps, restart, reset_crashes, process_queue, start_via_service,
}
use pufferd.Programs.Names.{Closed, deref-Closed, store-Closed}
use pufferd.Programs.Directory.{Extends-self, Inside}
use pufferd.Programs.Registry.Kept.{extending, listing}
use pufferd.Programs.Restarts.{after_exit-no_program}
use pufferd.Program.Lifecycle.{is_running, start}
use pufferd.Programs.Whole.{IsWhole, Keeps-steady, IsWhole-steps, queueing}

-- The exit of a process, for what also outlives a start that is queued.
module _ {I : World → Type 0} (o : Outside) (c : Closed I) (p : ℕ)
    (pushes : (w : World) → I w → I (start_via_service p w)) where
  post_steps-Closed :
      (program : Program) (e : ℕ) (graceful : Bool) → Keeps I (post_steps o program e graceful)
  unfolding post_steps
  post_steps-Closed program e graceful =
      Keeps-bind (generate_process-Keeps o _ program.environment _ _) λ generated.
        Keeps-result generated (λ failed. shown failed)
          (λ ops. Keeps-then (tell_any o c.calls _) (
            Keeps-bind (run_process-Keeps I o (λ x w _. c.calls x w) e ops)
              λ result. Keeps-option result (Keeps-pure true) (λ failed. shown failed)))
    where
      shown :
          (failed : Err)
          → Keeps I (report o e "Failed to run post-execution steps\n" failed >> pure false)
      shown failed = Keeps-then (report_any o c.calls e _ failed) (Keeps-pure _)

  restart-Closed : (graceful : Bool) → Keeps I (restart o p graceful)
  unfolding restart
  restart-Closed graceful = deref-Closed c o p λ program fits. Keeps-if _ (Keeps-pure tt) (
      Keeps-then
        (Keeps-if graceful (Keeps-pure tt)
          (store-Closed c o p _ (c.same_name p program _ refl fits)))
        (record { at = pushes }))

  after_exit-Closed : (graceful : Bool) → Keeps I (after_exit o p graceful)
  unfolding after_exit
  after_exit-Closed graceful = deref-Closed c o p λ program fits.
      Keeps-then
        (store-Closed c o p (reset_crashes graceful program)
          (c.same_name p program _ (reset_name graceful program) fits))
        (Keeps-bind (Keeps-need _) λ e.
          Keeps-bind (post_steps-Closed _ e graceful)
            λ done. Keeps-if done (restart-Closed graceful) (Keeps-pure tt))
    where
      reset_name :
          (graceful : Bool) (program : Program)
          → (reset_crashes graceful program).identifier ≡ program.identifier
      reset_name true program = refl
      reset_name false program = refl

-- `StartViaService` of a server that is there.
pub pushed :
    (n p : ℕ)
    → p < n
    → (w : World) → All (λ q. q < n) w.queue
    → All (λ q. q < n) (start_via_service p w).queue
unfolding start_via_service
pushed n p lt w h = elim (Bool-cases w.running) [
  | inl on ↦ rw (on) (All-append _ w.queue (p ∷ []) h (lt, tt))
  | inr off ↦ rw (off) h
]

pub start_via_service-list :
    (p : ℕ) (w : World) → (start_via_service p w).all_programs ≡ w.all_programs
unfolding start_via_service
start_via_service-list p w = ground arith

pub start_via_service-heap : (p : ℕ) (w : World) → (start_via_service p w).heap ≡ w.heap
unfolding start_via_service
start_via_service-heap p w = ground arith

pub after_exit-Keeps :
    (o : Outside) (p : ℕ) (graceful : Bool) → Keeps IsWhole (after_exit o p graceful)
after_exit-Keeps o p graceful = record {
  at = λ w h. elim (Option-cases (get_elem? w.heap p)) [
    | inl absent ↦ subst IsWhole (sym (after_exit-no_program o p graceful w absent)) h
    | inr (program, there) ↦
        IsWhole-steps w _ h
          ((after_exit-Closed o (extending w.heap) p (λ v e. rw (start_via_service-heap p v) e)
              graceful).at
            w (Extends-self w.heap))
          ((after_exit-Closed o (listing w.all_programs) p (λ v l. start_via_service-list p v ∙ l)
              graceful).at
            w refl)
          ((after_exit-Closed o (queueing (length w.heap)) p
              (pushed (length w.heap) p (get_elem?-in w.heap p there)) graceful).at
            w h.queued)
  ];
}

-- One server off the queue.
pub process_queue-Keeps : (o : Outside) → Keeps IsWhole (process_queue o)
unfolding process_queue
process_queue-Keeps o = record { at = λ w h. ticked w h w.queue refl }
  where
    served :
        (p : ℕ)
        → Keeps IsWhole (
            deref p >>= λ program. is_running o program >>= λ (run, _).
            if run then pure tt else (start o program >> pure tt))
    served p = Keeps-steady (λ I c. deref-Closed c o p λ program _.
        Keeps-bind (is_running-Keeps o c.calls program) λ (run, failed).
          Keeps-if run (Keeps-pure tt) (Keeps-then (start-Keeps o c.calls program) (Keeps-pure tt)))

    ticked :
        (w : World) → IsWhole w → (q : List ℕ) → w.queue ≡ q → IsWhole (final (process_queue o w))
    ticked w h [] e = rw (e, final) h
    ticked w h (p ∷ ps) e =
        rw (e, final)
          ((served p).at (record w { queue = ps })
            (record {
              sound = record { inside = h.sound.inside; unique = h.sound.unique };
              queued = (subst (λ q. Inside w.heap q) e h.queued).1;
            }))
