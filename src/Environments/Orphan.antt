-- ===== src/Environments/Orphan.antt =====
-- A process that an environment of the kind standard loses.
use pufferd.Common.{ℕ, [], ◌∷◌, true, false, true, false, some, ◌≡◌, refl, arith}
use pufferd.Environments.{System, nothing, started, start, runs}
use pufferd.Environments.Standard
use pufferd.Environments.Steps.{
  standard, call, pass, go, reaped, finished, exit, Step, Reach, here, next, fresh,
}

-- An environment whose process has ended, before its goroutine has noticed.
pub record Ended (s : System) (pid p : ℕ) : Type 0 where
  pub no_process : s.alive ≡ []
  pub known : s.main ≡ started pid
  pub attended : s.attending ≡ (pid, some p) ∷ []
  pub none_ends : s.ending ≡ []
  pub one_waits : s.wait ≡ 1
  pub none_checked : s.checked ≡ []
  pub none_passed : s.passed ≡ []

module _ (s : System) (pid p q : ℕ) (ended : Ended s pid p) where
  called : System
  called = record s { checked = some p ∷ [] }

  noticed : System
  noticed = Standard.reap pid (some p) [] called

  passed_on : System
  passed_on = record noticed { checked = []; passed = some p ∷ noticed.passed }

  begun : System
  begun = (Standard.launch (start q) (some p) [] passed_on).1

  lost : System
  lost = record begun {
    ending = [];
    main = nothing;
    std_in = false;
    calls = (p, false) ∷ (p, false) ∷ begun.calls;
  }

  to_noticed : Reach standard s noticed
  unfolding called noticed Standard.check Standard.is_running
  to_noticed =
      next {t = called}
        (next here
          (call (some p) ended.none_checked ended.none_passed (ground arith) (ground arith)))
        (reaped pid (some p) [] refl ended.attended (ground arith) refl)

  to_begun : Reach standard s begun
  unfolding passed_on begun noticed called Standard.reap
  to_begun =
      next {t = passed_on} (next to_noticed (pass (some p) [] refl (ground arith) refl))
        (go (start q) (some p) [] (ground (arith, ended.none_passed)) (ground arith) refl)

  lost_step : Step standard begun lost
  unfolding begun lost passed_on noticed called Standard.reap Standard.launch Standard.finish
      Standard.tell Standard.call_twice
  lost_step = finished false false pid (some p) [] refl (ground arith) (ground arith)

  lost-alive : lost.alive ≡ q ∷ []
  unfolding begun lost passed_on noticed called Standard.reap Standard.launch
  lost-alive = ground arith

  lost-nothing : runs lost.main lost.alive ≡ false
  unfolding lost
  lost-nothing = refl

module _ (pid p : ℕ) where
  abbrev ended : System
  ended = record fresh {
    main = started pid;
    std_in = true;
    wait = 1;
    attending = (pid, some p) ∷ [];
  }

  ended-Ended : Ended ended pid p
  ended-Ended = record {
    no_process = refl;
    known = refl;
    attended = refl;
    none_ends = refl;
    one_waits = refl;
    none_checked = refl;
    none_passed = refl;
  }

  to_ended : Reach standard fresh ended
  unfolding Standard.check Standard.is_running Standard.launch
  to_ended =
      next {t = record ended { alive = pid ∷ [] }}
        (next {t = record fresh { passed = some p ∷ [] }}
          (next {t = record fresh { checked = some p ∷ [] }}
            (next here (call (some p) refl refl refl refl)) (pass (some p) [] refl refl refl))
          (go (start pid) (some p) [] refl refl (ground arith)))
        (exit pid (ground arith) (ground arith))

-- How an environment loses the process `q`, whose server was started again behind the end of `pid`, with
-- the callback `p`: three states that follow each other.
pub record Orphaned (pid p q : ℕ) : Type 0 where
  -- The old process is over, and its goroutine has not noticed.
  pub over : System
  pub to_over : Reach standard fresh over
  pub had : over.main ≡ started pid
  pub none_alive : over.alive ≡ []
  pub unnoticed : over.attending ≡ (pid, some p) ∷ []
  -- The new process runs and is known, and the goroutine of the old one has yet to clean up.
  pub again : System
  pub to_again : Reach standard over again
  pub has_new : again.main ≡ started q
  pub new_alive : again.alive ≡ q ∷ []
  pub new_runs : Standard.is_running again ≡ true
  pub old_cleans_up : again.ending ≡ (pid, some p) ∷ []
  -- It has cleaned up: the new process still runs, and is not known.
  pub orphaned : System
  pub cleaned_up : Standard.finish false false (some p) [] again ≡ some orphaned
  pub is_step : Step standard again orphaned
  pub forgotten : orphaned.main ≡ nothing
  pub still_alive : orphaned.alive ≡ q ∷ []
  pub runs_not : Standard.is_running orphaned ≡ false

-- In an environment of the kind standard, a server whose process has ended and that is started again, with
-- only this one call under way, may get a process that the environment does not know. The goroutine of the
-- old process lets the call through before it cleans up; the new process is started, and is the command of
-- the environment; then the goroutine forgets that command, which it takes for its own. `IsRunning` then says
-- that nothing runs, while the new process does.
pub standard_orphan : (pid p q : ℕ) → Orphaned pid p q
unfolding begun lost passed_on noticed called Standard.reap Standard.launch Standard.finish
    Standard.tell Standard.call_twice Standard.is_running
standard_orphan pid p q =
    let old = ended pid p in
    let over = ended-Ended pid p in
    record {
      over = old;
      to_over = to_ended pid p;
      had = refl;
      none_alive = refl;
      unnoticed = refl;
      again = begun old pid p q over;
      to_again = to_begun old pid p q over;
      has_new = ground arith;
      new_alive = ground arith;
      new_runs = ground arith;
      old_cleans_up = ground arith;
      orphaned = lost old pid p q over;
      cleaned_up = ground arith;
      is_step = lost_step old pid p q over;
      forgotten = refl;
      still_alive = lost-alive old pid p q over;
      runs_not = lost-nothing old pid p q over;
    }
