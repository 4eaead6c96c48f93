-- ===== src/Program/Safety.antt =====
-- What the life-cycle methods of a server may do to its process.
use pufferd.Common.{
  ℕ, suc, ◌+◌, ◌≤◌, ◌<◌, String, List, [], ◌∷◌, true, false, Option, none, some, is_some,
  if◌then◌else◌, not, ◌||◌, ◌≡◌, refl, arith, Bool-cases, Option-cases, inl, inr, ◌⊎◌, ◌∙◌, ap,
  ◌&&◌,
}
use pufferd.Types.{Err, Value, Program}
use pufferd.World.{
  Call, World, Outside, pure, ◌>>=◌, ◌>>◌, final, record_call, tell, report, stepping,
}
use pufferd.World.Keeps.{
  Keeps, Keeps-pure, Keeps-bind, Keeps-then, Keeps-result, Keeps-option, Keeps-report, bind_final,
}
use pufferd.Operations.Steps.{is_step, run_process-Keeps}
use pufferd.Operations.Generated.{generate_process-Keeps}
use pufferd.Program.{is_enabled}
use pufferd.Program.Lifecycle.{run_section, launch, start, start_stopped}

-- The starts of a server's own process: those with its exit callback.
abbrev pub launches : List Call → ℕ
launches [] = 0
launches (Call.execute_async e cmd args env (some id) ∷ t) = suc (launches t)
launches (c ∷ t) = launches t

abbrev Launched : ℕ → World → Type 0
Launched n w = launches w.trace ≡ n

step-Launched :
    (n : ℕ) (c : Call) (w : World) → is_step c ≡ true → Launched n w → Launched n (record_call c w)
step-Launched n (Call.execute_async e cmd args env (some id)) w s h = cc
step-Launched n (Call.execute_async e cmd args env none) w s h = h
step-Launched n c w s h = h

module _ {I : World → Type 0} (o : Outside)
    (keep : (c : Call) (w : World) → is_step c ≡ true → I w → I (record_call c w)) where
  -- A section of operations keeps what its calls keep.
  pub run_section-Keeps :
      (p : Program) (e : ℕ) (section : List Value) (message : String)
      → Keeps I (run_section o p e section message)
  unfolding run_section
  run_section-Keeps p e section message =
      Keeps-bind (generate_process-Keeps o section p.environment _ _) λ generated.
        Keeps-result generated (λ failed. shown failed)
          (λ ops.
            Keeps-bind (run_process-Keeps I o keep e ops)
              λ result. Keeps-option result (Keeps-pure none) (λ failed. shown failed))
    where
      shown : (failed : Err) → Keeps I (report o e message failed >> pure (some failed))
      shown failed =
          Keeps-then (Keeps-report I o (λ c. is_step c ≡ true) keep e message failed (λ _ _. refl))
            (Keeps-pure _)

launch-launches :
    (o : Outside) (p : Program) (e : ℕ) (w : World)
    → launches (final (launch o p e w)).trace ≡ suc (launches w.trace)
unfolding launch stepping
launch-launches o p e w = ground arith

abbrev LaunchedOnce : ℕ → World → Type 0
LaunchedOnce n w = (launches w.trace ≡ n) ⊎ (launches w.trace ≡ suc n)

launch_unless :
    (o : Outside) (p : Program) (e n : ℕ) (failed : Option Err) (w : World)
    → Launched n w
    → LaunchedOnce n (final ((if is_some failed then pure failed else launch o p e) w))
unfolding pure
launch_unless o p e n (some x) w h = inl h
launch_unless o p e n none w h = inr (launch-launches o p e w ∙ ap suc h)

start_stopped-launches :
    (o : Outside) (p : Program) (e n : ℕ) (w : World)
    → Launched n w
    → LaunchedOnce n (final (start_stopped o p e w))
unfolding start_stopped ◌>>=◌ ◌>>◌ tell
start_stopped-launches o p e n w h =
    bind_final (Launched n) (LaunchedOnce n) _ _
      (run_section-Keeps o (step-Launched n) p e p.execution.pre_execution
        "Error running pre execute\n")
      (launch_unless o p e n) (λ v k. inl k) (record_call (Call.display e "Starting server\n" []) w)
      h

-- What `Start` has found out when it goes on behind its checks.
record MayStart (o : Outside) (p : Program) (w : World) : Type 0 where
  enabled : is_enabled p ≡ true
  environment : ℕ
  has_environment : p.environment ≡ some environment
  idle : o.flag w.trace (Call.is_running environment) ≡ false
  known : o.answer w.trace (Call.is_running environment) ≡ none
  goes_on :
      final (start o p w)
      ≡ final (start_stopped o p environment (record_call (Call.is_running environment) w))

start-cases :
    (o : Outside) (p : Program) (w : World)
    → (launches (final (start o p w)).trace ≡ launches w.trace) ⊎ MayStart o p w
unfolding start stepping
start-cases o p w = elim (Option-cases p.environment) [
  | inl nil ↦ inl (ground arith)
  | inr (e, at_e) ↦
      elim (Bool-cases (
        is_enabled p
        && not (
            o.flag w.trace (Call.is_running e)
            || is_some (o.answer w.trace (Call.is_running e))))) [
              | inl go ↦ inr (record {
                enabled = ground arith;
                environment = e;
                has_environment = at_e;
                idle = ground arith;
                known = ground arith;
                goes_on = ground arith;
              })
              | inr stay ↦ inl (ground arith)
            ]
]

-- One call of `Start` starts the server's process at most once, whatever its pre-execution steps do.
pub start_at_most_once :
    (o : Outside) (p : Program) (w : World)
    → (launches w.trace ≤ launches (final (start o p w)).trace)
      × (launches (final (start o p w)).trace ≤ launches w.trace + 1)
start_at_most_once o p w = elim (start-cases o p w) [
  | inl same ↦ omega arith
  | inr m ↦ ground (
    arith,
    m.goes_on,
    start_stopped-launches o p m.environment (launches w.trace)
        (record_call (Call.is_running m.environment) w) refl,
  )
]

-- `Start` starts the server's process only if the server is enabled, has an environment, and that
-- environment said, without an error, that nothing runs.
pub start_only_if :
    (o : Outside) (p : Program) (w : World)
    → launches w.trace < launches (final (start o p w)).trace
    → (is_enabled p ≡ true)
      × ((e : ℕ) × (p.environment ≡ some e)
          × (o.flag w.trace (Call.is_running e) ≡ false)
          × (o.answer w.trace (Call.is_running e) ≡ none))
start_only_if o p w h = elim (start-cases o p w) [
  | inl same ↦ absurd (omega arith)
  | inr m ↦ (m.enabled, (m.environment, m.has_environment, m.idle, m.known))
]
