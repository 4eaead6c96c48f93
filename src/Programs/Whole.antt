-- ===== src/Programs/Whole.antt =====
-- The state of the servers as a whole: the list, the start queue, and what the functions of the loader and the
-- exit of a process (programs/loader.go, programs/program.go) do to both.
pub mod Queueing
use pufferd.Common.{
  ℕ, ◌<◌, String, Bool, List, [], ◌∷◌, ◌++◌, true, false, Option, none, some, is_some,
  if◌then◌else◌, ◌≡◌, refl, arith, sym, ◌∙◌, subst, get_elem?, get_elem?-in, Bool-cases, length,
  All, All-append, Option-cases, inl, inr,
}
use pufferd.Types.{Err, Program}
use pufferd.World.{
  World, Outside, Outcome, ret, panic, Go, pure, ◌>>=◌, ◌>>◌, final, report, deref, alloc,
}
use pufferd.World.Keeps.{
  Keeps, Keeps-pure, Keeps-bind, Keeps-then, Keeps-if, Keeps-option, Keeps-result, Keeps-need,
}
use pufferd.Operations.Steps.{run_process-Keeps}
use pufferd.Operations.Generated.{generate_process-Keeps}
use pufferd.Program.Keeps.{
  is_running-Keeps, start-Keeps, stop-Keeps, destroy-Keeps, tell_any, report_any,
}
use pufferd.Programs.{create_server, delete, delete_found, remove_server, get_from_cache, enter}
use pufferd.Programs.Exit.{
  after_exit, post_steps, restart, reset_crashes, process_queue, start_via_service,
}
use pufferd.Programs.Names.{Closed, ask-Closed, deref-Closed, store-Closed, create_server-Closed}
use pufferd.Programs.Directory.{Extends, Extends-self, Extends-append, Inside, Inside-Extends}
use pufferd.Programs.Registry.{add, remove, IsSound}
use pufferd.Programs.Registry.Kept.{extending, listing, IsSound-same}
use pufferd.Programs.Registry.Added.{enter-Extends}
use pufferd.Programs.Registry.Refined.{act-Refines}
use pufferd.Programs.Restarts.{after_exit-no_program}
use pufferd.Program.Lifecycle.{is_running, start}

-- The list is sound, and every queued pointer is to an object.
pub record IsWhole (w : World) : Type 0 where
  pub sound : IsSound w
  pub queued : Inside w.heap w.queue

pub queueing : (n : ℕ) → Closed (λ w. All (λ p. p < n) w.queue)
queueing n = record {
  Fits = λ _ _. Unit;
  calls = λ c w h. h;
  grows = λ program w h. h;
  known = λ p program w h there. tt;
  same_name = λ p old new same fits. tt;
  writes = λ p program w fits h. h;
}

-- What keeps the identifiers, the list and the pointers of the queue keeps the whole.
pub IsWhole-steps :
    (w v : World)
    → IsWhole w
    → Extends w.heap v.heap
    → v.all_programs ≡ w.all_programs
    → All (λ p. p < length w.heap) v.queue
    → IsWhole v
IsWhole-steps w v h e l q = record {
  sound = IsSound-same w v e h.sound l;
  queued = Inside-Extends w.heap v.heap e v.queue q;
}

-- A run that keeps whatever calls, new objects and writes under the same identifier keep.
pub Keeps-steady :
    {A : Type 0} {m : Go A} → ((I : World → Type 0) → Closed I → Keeps I m) → Keeps IsWhole m
Keeps-steady {m} steady = record {
  at = λ w h.
      IsWhole-steps w (final (m w)) h ((steady _ (extending w.heap)).at w (Extends-self w.heap))
        ((steady _ (listing w.all_programs)).at w refl)
        ((steady _ (queueing (length w.heap))).at w h.queued);
}

pub bind_pure-final :
    {A B : Type 0} (m : Go A) (f : A → B) (w : World)
    → final ((m >>= λ x. pure (f x)) w) ≡ final (m w)
unfolding ◌>>=◌ pure
bind_pure-final {A} {B} m f w = split (m w)
  where
    split :
        (r : Outcome A)
        → final (elim r as (λ _. Outcome B) [ ret a v ↦ ret (f a) v | panic v ↦ panic v ]) ≡ final r
    split (ret a v) = refl
    split (panic v) = refl

-- Making a new object and entering it, and answering.
pub created-Keeps :
    {B : Type 0} (o : Outside) (program : Program) (f : Option Err → B)
    → Keeps IsWhole (alloc program >>= λ p. create_server o p >>= λ failed. pure (f failed))
unfolding alloc ◌>>=◌ enter ◌>>◌ pure
created-Keeps o program f = record {
  at = λ w h.
      subst IsWhole (sym (bind_pure-final (create_server o (length w.heap)) f (grown w)))
        (whole w h);
}
  where
    grown : World → World
    grown w = record w { heap = w.heap ++ program ∷ [] }

    queue_kept : (n p : ℕ) → Keeps (λ w. All (λ p. p < n) w.queue) (create_server o p)
    queue_kept n p = create_server-Closed (queueing n) o entered p
      where
        entered :
            (p : ℕ) (failed : Option Err) → Keeps (λ w. All (λ p. p < n) w.queue) (enter p failed)
        entered p none = record { at = λ w h. h }
        entered p (some x) = record { at = λ w h. h }

    whole : (w : World) → IsWhole w → IsWhole (final (create_server o (length w.heap) (grown w)))
    whole w h = record {
      sound = (act-Refines o (add program) w h.sound).0;
      queued =
          Inside-Extends w.heap _
            ((create_server-Closed (extending w.heap) o (enter-Extends w.heap) (length w.heap)).at
              (grown w) (Extends-append w.heap w.heap _ (Extends-self w.heap)))
            _ ((queue_kept (length w.heap) (length w.heap)).at (grown w) h.queued);
    }

-- `Delete`, for what does not depend on the list.
delete_found-Keeps :
    {I : World → Type 0} (o : Outside) (c : Closed I)
    → ((ps : List ℕ) (w : World) → I w → I (record w { all_programs = ps }))
    → (id : String) (found : Option ℕ) → Keeps I (delete_found o id found)
unfolding delete_found remove_server
delete_found-Keeps o c relist id none = Keeps-pure _
delete_found-Keeps o c relist id (some p) = deref-Closed c o p λ program _.
    Keeps-bind (is_running-Keeps o c.calls program) λ (running, failed).
      Keeps-if (is_some failed) (Keeps-pure _) (
        Keeps-bind (Keeps-if running (stop-Keeps o c.calls program) (Keeps-pure none)) λ stopped.
          Keeps-if (is_some stopped) (Keeps-pure _) (
            Keeps-bind (destroy-Keeps o c.calls program) λ destroyed.
              Keeps-if (is_some destroyed) (Keeps-pure _)
                (Keeps-bind (ask-Closed c o _) λ removed. record { at = λ w h. relist _ w h })))

pub delete-Keeps : (o : Outside) (id : String) → Keeps IsWhole (delete o id)
unfolding delete
delete-Keeps o id = record {
  at = λ w h. record {
    sound = (act-Refines o (remove id) w h.sound).0;
    queued =
        Inside-Extends w.heap _
          ((delete_found-Keeps o (extending w.heap) (λ ps v e. e) id (get_from_cache id w)).at w
            (Extends-self w.heap))
          _
          ((delete_found-Keeps o (queueing (length w.heap)) (λ ps v q. q) id
              (get_from_cache id w)).at
            w h.queued);
  };
}
