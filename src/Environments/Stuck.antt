-- ===== src/Environments/Stuck.antt =====
-- A start that failed.
use pufferd.Common.{ℕ, ◌<◌, ◌≤◌, List, [], ◌∷◌, ◌≡◌, arith, length, subst, sym}
use pufferd.Types.{Err}
use pufferd.Environments.{System, Callback, Launch, no_pipe, no_start, start, drop_all}
use pufferd.Environments.Standard
use pufferd.Environments.Tty
use pufferd.Environments.Steps.{
  Kind, standard, tty, launch, Step, call, pass, go, exit, reaped, finished, closed, Reach, here,
  next, fresh,
}

-- More is added to the wait group than goroutines will take off, and no call is past it.
record Leaks (bound : ℕ) (s : System) : Type 0 where
  owed : length s.attending < s.wait
  shut_out : s.passed ≡ []
  no_more : length s.alive ≤ bound

length-drop_all : (n : ℕ) (ms : List ℕ) → length (drop_all n ms) ≤ length ms
length-drop_all n [] = omega arith
length-drop_all n (m ∷ ms) = ground (arith, length-drop_all n ms)

Step-Leaks : (k : Kind) (b : ℕ) {s t : System} → Step k s t → Leaks b s → Leaks b t
unfolding Standard.check Tty.check Standard.reap Standard.finish Standard.tell Standard.call_twice
    Tty.handle_close
Step-Leaks standard b (call c nc np ok e) h = ground arith
Step-Leaks tty b (call c nc np ok e) h = ground arith
Step-Leaks k b (pass c rest p z e) h = ground arith
Step-Leaks k b (go l c rest p f e) h = ground arith
Step-Leaks k b {s} (exit pid x e) h = ground (arith, length-drop_all pid s.alive)
Step-Leaks k b (reaped pid c rest is a f e) h = ground arith
Step-Leaks k b (finished ok success pid c rest is a e) h = ground arith
Step-Leaks k b (closed ok success pid c rest is a f e) h = ground arith

Reach-Leaks : (k : Kind) (b : ℕ) {s t : System} → Reach k s t → Leaks b s → Leaks b t
Reach-Leaks k b here h = h
Reach-Leaks k b (next r st) h = Step-Leaks k b st (Reach-Leaks k b r h)

-- Starting a command fails.
pub data Fails : Launch → Type 0 where
  pipe_failed : (e : Err) → Fails (no_pipe e)
  start_failed : (e : Err) → Fails (no_start e)

launch-Leaks :
    (k : Kind) (l : Launch) (c : Callback) (s : System)
    → Fails l
    → length s.attending ≤ s.wait
    → Leaks (length s.alive) (launch k l c [] s).1
unfolding Standard.launch Tty.launch
launch-Leaks standard (no_pipe e) c s f h = ground arith
launch-Leaks standard (no_start e) c s f h = ground arith
launch-Leaks tty (no_pipe e) c s f h = ground arith
launch-Leaks tty (no_start e) c s f h = ground arith
launch-Leaks standard (start pid) c s f h = elim f [ ]
launch-Leaks tty (start pid) c s f h = elim f [ ]

-- Every goroutine that attends a process is counted in the wait group.
Counted : System → Type 0
Counted s = length s.attending ≤ s.wait

launch-Counted :
    (k : Kind) (l : Launch) (c : Callback) (rest : List Callback) (s : System)
    → Counted s
    → Counted (launch k l c rest s).1
unfolding Standard.launch Tty.launch Counted
launch-Counted standard (no_pipe e) c rest s h = ground arith
launch-Counted standard (no_start e) c rest s h = ground arith
launch-Counted standard (start pid) c rest s h = ground arith
launch-Counted tty (no_pipe e) c rest s h = ground arith
launch-Counted tty (no_start e) c rest s h = ground arith
launch-Counted tty (start pid) c rest s h = ground arith

Step-Counted : (k : Kind) {s t : System} → Step k s t → Counted s → Counted t
unfolding Standard.check Tty.check Standard.reap Standard.finish Standard.tell Standard.call_twice
    Tty.handle_close Counted
Step-Counted standard (call c nc np ok e) h = ground arith
Step-Counted tty (call c nc np ok e) h = ground arith
Step-Counted k (pass c rest p z e) h = ground arith
Step-Counted k {s} (go l c rest p f e) h = subst Counted (sym e) (launch-Counted k l c rest s h)
Step-Counted k (exit pid x e) h = ground arith
Step-Counted k (reaped pid c rest is a f e) h = ground arith
Step-Counted k (finished ok success pid c rest is a e) h = ground arith
Step-Counted k (closed ok success pid c rest is a f e) h = ground arith

Reach-Counted : (k : Kind) {t : System} → Reach k fresh t → Counted t
unfolding Counted
Reach-Counted k here = omega arith
Reach-Counted k (next r st) = Step-Counted k st (Reach-Counted k r)

-- After one start that failed in an environment of either kind, at any time of its life, no process is ever
-- started again in it, while the calls of `ExecuteAsync` come one at a time and whatever ends: a later call
-- waits for the wait group for ever, so that no call gets past it, and at most the processes run that ran
-- before.
pub failed_start_blocks :
    (k : Kind) (l : Launch) (c : Callback) {s t : System}
    → Fails l
    → Reach k fresh s
    → s.passed ≡ c ∷ []
    → Reach k (launch k l c [] s).1 t
    → (t.passed ≡ []) × (0 < t.wait) × (length t.alive ≤ length s.alive)
unfolding Counted
failed_start_blocks k l c {s} f before called h =
    ground
      (arith, Reach-Leaks k (length s.alive) h (launch-Leaks k l c s f (Reach-Counted k before)))
