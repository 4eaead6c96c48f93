-- ===== src/Environments/Crash.antt =====
-- The end of a process that failed, and the exit of its server (programs/program.go, `afterExit`).
use pufferd.Common.{
  ℕ, suc, ◌+◌, ◌<◌, Bool, List, [], ◌∷◌, ◌++◌, true, false, some, ◌≡◌, ◌∙◌, ap, ap₂, refl, arith,
  get_elem?, set, get_elem?-set_self, lt→ltb,
}
use pufferd.Types.{Program}
use pufferd.World.{Call, Outside, World, ret, Go, pure, ◌>>◌, record_call, stepping}
use pufferd.World.Runs.{bind-ret, then-ret}
use pufferd.Programs.Restarts.{after_exit-steps}
use pufferd.Operations.{generate_process, generate_from}
use pufferd.Operations.Run.{run_process}
use pufferd.Programs.Exit.{after_exit, post_steps, restart, restarts, start_via_service}
use pufferd.Environments.{System, Main, nothing, unstarted, started, Callback}
use pufferd.Environments.Standard
use pufferd.Environments.Tty

-- The callbacks of a server's process, which are `afterExit` of the server, oldest first.
unfoldable pub deliver : Outside → List (ℕ × Bool) → Go (Unit {0})
deliver o [] = pure tt
deliver o ((p, graceful) ∷ calls) = deliver o calls >> after_exit o p graceful

-- A crash of a server without post-execution steps that may start again.
pub record MayRestart (o : Outside) (p k : ℕ) (w : World) : Type 0 where
  pub program : Program
  pub there : get_elem? w.heap p ≡ some program
  pub environment : ℕ
  pub has_environment : program.environment ≡ some environment
  pub no_steps : program.execution.post_execution ≡ []
  pub restarts_crashed : program.execution.auto_restart_from_crash ≡ true
  pub below : program.crash_counter + k < o.crash_limit
  pub open_queue : w.running ≡ true

post_steps-nil :
    (o : Outside) (program : Program) (e : ℕ) (w : World)
    → program.environment ≡ some e
    → program.execution.post_execution ≡ []
    → post_steps o program e false w
      ≡ ret true (record_call (Call.display e "Running post-execution steps\n" []) w)
unfolding post_steps generate_process generate_from run_process stepping
post_steps-nil o program e w at_e nil = ground arith

restart-crash :
    (o : Outside) (p : ℕ) (program : Program) (w : World)
    → get_elem? w.heap p ≡ some program
    → program.execution.auto_restart_from_crash ≡ true
    → program.crash_counter < o.crash_limit
    → w.running ≡ true
    → restart o p false w
      ≡ ret tt (record w {
        heap = set w.heap p (record program { crash_counter = program.crash_counter + 1 });
        queue = w.queue ++ p ∷ [];
      })
unfolding restart restarts start_via_service stepping
restart-crash o p program w there crashed below on =
    ground (arith, lt→ltb program.crash_counter o.crash_limit below)

-- The state behind one crash.
abbrev pub crashed : ℕ → ℕ → Program → World → World
crashed p e program w = record w {
  trace = Call.display e "Running post-execution steps\n" [] ∷ w.trace;
  heap =
      set (set w.heap p program) p (record program { crash_counter = program.crash_counter + 1 });
  queue = w.queue ++ p ∷ [];
}

crash_once :
    (o : Outside) (p k : ℕ) (w : World) (m : MayRestart o p k w)
    → after_exit o p false w ≡ ret tt (crashed p m.environment m.program w)
crash_once o p k w m =
    after_exit-steps o p false m.program m.environment w m.there m.has_environment
    ∙ bind-ret _ _ _ (post_steps-nil o m.program m.environment _ m.has_environment m.no_steps)
    ∙ restart-crash o p m.program _ (get_elem?-set_self {0} w.heap p m.program m.there)
        m.restarts_crashed (omega (arith, m.below)) m.open_queue

crashed-MayRestart :
    (o : Outside) (p k : ℕ) (w : World) (m : MayRestart o p (suc k) w)
    → MayRestart o p k (crashed p m.environment m.program w)
crashed-MayRestart o p k w m = record {
  program = record m.program { crash_counter = m.program.crash_counter + 1 };
  there =
      get_elem?-set_self {0} (set w.heap p m.program) p
        (record m.program { crash_counter = m.program.crash_counter + 1 })
        (get_elem?-set_self {0} w.heap p m.program m.there);
  environment = m.environment;
  has_environment = m.has_environment;
  no_steps = m.no_steps;
  restarts_crashed = m.restarts_crashed;
  below = omega (arith, m.below);
  open_queue = m.open_queue;
}

-- The world behind two ends of the process that are told one behind the other.
crash_twice :
    (o : Outside) (p : ℕ) (w : World) (m : MayRestart o p 1 w)
    → deliver o ((p, false) ∷ (p, false) ∷ []) w
      ≡ ret tt (
          crashed p m.environment
            (record m.program { crash_counter = m.program.crash_counter + 1 })
            (crashed p m.environment m.program w))
unfolding deliver pure crashed-MayRestart
crash_twice o p w m =
    then-ret _ _ _ (then-ret (pure tt) (after_exit o p false) w refl ∙ crash_once o p 1 w m)
    ∙ crash_once o p 0 _ (crashed-MayRestart o p 0 w m)

deliver_once :
    (o : Outside) (p : ℕ) (w : World) (m : MayRestart o p 1 w)
    → deliver o ((p, false) ∷ []) w ≡ ret tt (crashed p m.environment m.program w)
unfolding deliver pure
deliver_once o p w m = then-ret (pure tt) (after_exit o p false) w refl ∙ crash_once o p 1 w m

tell-twice :
    (m : Main) (success : Bool) (p : ℕ) (calls : List (ℕ × Bool))
    → Standard.tell m false success (some p) calls ≡ some ((p, false) ∷ (p, false) ∷ calls)
unfolding Standard.tell Standard.call_twice
tell-twice nothing success p calls = refl
tell-twice unstarted success p calls = refl
tell-twice (started pid) success p calls = refl

outcome-false : (m : Main) (success : Bool) → Tty.outcome m false success ≡ false
unfolding Tty.outcome
outcome-false nothing success = refl
outcome-false unstarted success = refl
outcome-false (started pid) success = refl

finish-twice :
    (s : System) (success : Bool) (p : ℕ) (rest : List (ℕ × Callback))
    → Standard.finish false success (some p) rest s
      ≡ some (record s {
        ending = rest;
        main = nothing;
        std_in = false;
        calls = (p, false) ∷ (p, false) ∷ s.calls;
      })
unfolding Standard.finish
finish-twice s success p rest = ground (arith, tell-twice s.main success p s.calls)

-- Where waiting for the process gave an error, its end is told to its server by both environments, but by
-- that of the kind standard twice. Take a server that has an environment and no post-execution steps, starts
-- again after a crash, and has at least two of these restarts left, a queue that is open, and an environment that
-- has told no end before. For one crash, the world behind it then has the server queued twice and two crashes
-- counted, with the kind tty once and one.
pub one_crash_counts_twice :
    (o : Outside) (p : ℕ) (w : World) (m : MayRestart o p 1 w) (s : System) (success : Bool)
    → (e : s.calls ≡ [])
    → ((t : System) × (Standard.finish false success (some p) [] s ≡ some t)
        × (deliver o t.calls w
            ≡ ret tt (
                crashed p m.environment
                  (record m.program { crash_counter = m.program.crash_counter + 1 })
                  (crashed p m.environment m.program w))))
      × (deliver o (Tty.handle_close false success (some p) [] s).calls w
          ≡ ret tt (crashed p m.environment m.program w))
unfolding Tty.handle_close
one_crash_counts_twice o p w m s success e = (
  (
    _,
    finish-twice s success p [],
    ap (λ calls. deliver o ((p, false) ∷ (p, false) ∷ calls) w) e ∙ crash_twice o p w m,
  ),
  ap₂ (λ f calls. deliver o ((p, f) ∷ calls) w) (outcome-false s.main success) e
      ∙ deliver_once o p w m,
)
