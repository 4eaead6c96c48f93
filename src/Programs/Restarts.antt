-- ===== src/Programs/Restarts.antt =====
-- How often a server is started again after its process exits (programs/program.go, `afterExit`).
use pufferd.Common.{
  ℕ, zero, suc, ◌+◌, ◌-◌, ◌≤◌, Bool, List, [], ◌∷◌, true, false, none, some, if◌then◌else◌, ◌≡◌,
  refl, arith, Option-cases, inl, inr, ◌∙◌, ap, length, length-append, get_elem?, set,
  get_elem?-set_self,
}
use pufferd.Types.{Err, Program}
use pufferd.World.{
  Call, World, Outside, pure, ◌>>=◌, ◌>>◌, final, record_call, report, stepping, store,
}
use pufferd.World.Keeps.{
  Keeps, Keeps-pure, Keeps-bind, Keeps-then, Keeps-result, Keeps-option, Keeps-report, Keeps-tell,
  bind_final,
}
use pufferd.World.Runs.{
  bind-ret, bind-panic, then-ret, deref-some, deref-none, need-some, need-none,
}
use pufferd.Operations.Steps.{is_step, run_process-Keeps}
use pufferd.Operations.Generated.{generate_process-Keeps}
use pufferd.Programs.Exit.{after_exit, post_steps, restart, reset_crashes}

-- The programs and the queue are as given, whatever was called.
record Untouched (h : List Program) (q : List ℕ) (w : World) : Type 0 where
  same_heap : w.heap ≡ h
  same_queue : w.queue ≡ q

step-Untouched :
    (h : List Program) (q : List ℕ) (c : Call) (w : World)
    → is_step c ≡ true
    → Untouched h q w
    → Untouched h q (record_call c w)
step-Untouched h q c w s u = record { same_heap = u.same_heap; same_queue = u.same_queue }

post_steps-Keeps :
    (o : Outside) (h : List Program) (q : List ℕ) (p : Program) (e : ℕ) (graceful : Bool)
    → Keeps (Untouched h q) (post_steps o p e graceful)
unfolding post_steps
post_steps-Keeps o h q p e graceful =
    Keeps-bind (generate_process-Keeps o _ p.environment _ _) λ generated.
      Keeps-result generated (λ failed. shown failed)
        (λ ops. Keeps-then (Keeps-tell _ o (λ c. is_step c ≡ true) (step-Untouched h q) _ refl) (
          Keeps-bind (run_process-Keeps _ o (step-Untouched h q) e ops)
            λ result. Keeps-option result (Keeps-pure true) (λ failed. shown failed)))
  where
    shown :
        (failed : Err)
        → Keeps
            (Untouched h q)
            (report o e "Failed to run post-execution steps\n" failed >> pure false)
    shown failed =
        Keeps-then
          (Keeps-report _ o (λ c. is_step c ≡ true) (step-Untouched h q) e _ failed (λ _ _. refl))
          (Keeps-pure _)

-- The crash counter of a program, 0 for a pointer to nothing.
abbrev pub counter : ℕ → World → ℕ
counter p w = elim (get_elem? w.heap p) [ some program ↦ program.crash_counter | none ↦ 0 ]

-- The queued starts and those that crashes may still add.
Budget : ℕ → ℕ → ℕ → World → Type 0
Budget limit p n w = length w.queue + (limit - counter p w) ≤ n

restart-Budget :
    (o : Outside) (p n : ℕ) (w : World)
    → Budget o.crash_limit p n w
    → Budget o.crash_limit p n (final (restart o p false w))
unfolding restart stepping Budget
restart-Budget o p n w h = elim (Option-cases (get_elem? w.heap p)) [
  | inl nil ↦ ground arith
  | inr (program, found) ↦ ground (
    arith,
    length-append {0} w.queue (p ∷ []),
    get_elem?-set_self {0} w.heap p (record program { crash_counter = program.crash_counter + 1 })
        found,
  )
]

restart_if-Budget :
    (o : Outside) (p n : ℕ) (done : Bool) (w : World)
    → Budget o.crash_limit p n w
    → Budget o.crash_limit p n (final ((if done then restart o p false else pure tt) w))
unfolding pure
restart_if-Budget o p n true w h = restart-Budget o p n w h
restart_if-Budget o p n false w h = h

Budget-Untouched :
    (limit p n : ℕ) (v w : World)
    → Budget limit p n v
    → Untouched v.heap v.queue w
    → Budget limit p n w
unfolding Budget
Budget-Untouched limit p n v w h u = rw (u.same_heap, u.same_queue) h

steps-Budget :
    (o : Outside) (p n : ℕ) (program : Program) (e : ℕ) (w : World)
    → Budget o.crash_limit p n w
    → Budget o.crash_limit p n (
        final (
          (post_steps o program e false >>= λ done. if done then restart o p false else pure tt) w))
steps-Budget o p n program e w h =
    bind_final (Untouched w.heap w.queue) (Budget o.crash_limit p n) _ _
      (post_steps-Keeps o w.heap w.queue program e false)
      (λ done v u. restart_if-Budget o p n done v (Budget-Untouched o.crash_limit p n w v h u))
      (λ v u. Budget-Untouched o.crash_limit p n w v h u) w
      (record { same_heap = refl; same_queue = refl })

-- `afterExit` of a server that is there: the counter is stored, then the steps are run.
pub after_exit-steps :
    (o : Outside) (p : ℕ) (graceful : Bool) (program : Program) (e : ℕ) (w : World)
    → get_elem? w.heap p ≡ some program
    → (reset_crashes graceful program).environment ≡ some e
    → after_exit o p graceful w
      ≡ (post_steps o (reset_crashes graceful program) e graceful >>= λ done.
            if done then restart o p graceful else pure tt)
          (record w { heap = set w.heap p (reset_crashes graceful program) })
unfolding after_exit store
after_exit-steps o p graceful program e w found at_e =
    bind-ret _ _ _ (deref-some p w found)
    ∙ then-ret _ _ _ refl
    ∙ bind-ret _ _ _ (need-some _ _ at_e)

pub after_exit-no_program :
    (o : Outside) (p : ℕ) (graceful : Bool) (w : World)
    → get_elem? w.heap p ≡ none
    → final (after_exit o p graceful w) ≡ w
unfolding after_exit
after_exit-no_program o p graceful w absent = ap final (bind-panic _ _ _ (deref-none p w absent))

after_exit-no_environment :
    (o : Outside) (p : ℕ) (graceful : Bool) (program : Program) (w : World)
    → get_elem? w.heap p ≡ some program
    → (reset_crashes graceful program).environment ≡ none
    → final (after_exit o p graceful w)
      ≡ record w { heap = set w.heap p (reset_crashes graceful program) }
unfolding after_exit store
after_exit-no_environment o p graceful program w found nil = ap final (
    bind-ret _ _ _ (deref-some p w found)
    ∙ then-ret _ _ _ refl
    ∙ bind-panic _ _ _ (need-none _ _ nil))

store-Budget :
    (limit p n : ℕ) (program : Program) (w : World)
    → get_elem? w.heap p ≡ some program
    → Budget limit p n w
    → Budget limit p n (record w { heap = set w.heap p program })
unfolding Budget
store-Budget limit p n program w found h =
    ground (arith, get_elem?-set_self {0} w.heap p program found)

after_crash-Budget :
    (o : Outside) (p n : ℕ) (w : World)
    → Budget o.crash_limit p n w
    → Budget o.crash_limit p n (final (after_exit o p false w))
after_crash-Budget o p n w h = elim (Option-cases (get_elem? w.heap p)) [
  | inl absent ↦ rw (after_exit-no_program o p false w absent) h
  | inr (program, found) ↦ elim (Option-cases program.environment) [
    | inl nil ↦
        rw (after_exit-no_environment o p false program w found nil)
          (store-Budget o.crash_limit p n program w found h)
    | inr (e, at_e) ↦
        rw (after_exit-steps o p false program e w found at_e)
          (steps-Budget o p n program e _ (store-Budget o.crash_limit p n program w found h))
  ]
]

-- The state behind `n` crashes of a server, one after the other.
abbrev pub after_crashes : Outside → ℕ → ℕ → World → World
after_crashes o p zero w = w
after_crashes o p (suc n) w = after_crashes o p n (final (after_exit o p false w))

after_crashes-Budget :
    (o : Outside) (p n k : ℕ) (w : World)
    → Budget o.crash_limit p k w
    → Budget o.crash_limit p k (after_crashes o p n w)
after_crashes-Budget o p zero k w h = h
after_crashes-Budget o p (suc n) k w h =
    after_crashes-Budget o p n k (final (after_exit o p false w)) (after_crash-Budget o p k w h)

-- However often a server crashes in a row, its restarts end: the crashes queue together at most as
-- many starts as its crash counter is below the crash limit.
pub crash_restarts_bounded :
    (o : Outside) (p n : ℕ) (w : World)
    → length (after_crashes o p n w).queue ≤ length w.queue + (o.crash_limit - counter p w)
unfolding Budget
crash_restarts_bounded o p n w = omega (
  arith,
  after_crashes-Budget o p n (length w.queue + (o.crash_limit - counter p w)) w (omega arith),
)
