-- ===== src/Program/Keeps.antt =====
-- Invariants of starting, stopping, creating and destroying a server (programs/program.go).
use pufferd.Common.{ℕ, String, none, some, is_some}
use pufferd.Types.{Err, Program}
use pufferd.World.{Call, World, Outside, record_call, ask, tell, report}
use pufferd.World.Keeps.{
  Keeps, Keeps-pure, Keeps-bind, Keeps-then, Keeps-if, Keeps-option, Keeps-need, Keeps-ask,
  Keeps-ask_flag, Keeps-tell, Keeps-report,
}
use pufferd.Program.Calls.{start-starts, stop-stops}
use pufferd.Program.Safety.{run_section-Keeps}
use pufferd.Program.Lifecycle.{start, stop, create, destroy, is_running}

module _ {I : World → Type 0} (o : Outside)
    (keep : (c : Call) (w : World) → I w → I (record_call c w)) where
  pub ask_any : (c : Call) → Keeps I (ask o c)
  ask_any c = Keeps-ask I o (λ _. Unit {0}) (λ c w _. keep c w) c tt

  pub tell_any : (c : Call) → Keeps I (tell o c)
  tell_any c = Keeps-tell I o (λ _. Unit {0}) (λ c w _. keep c w) c tt

  pub report_any : (e : ℕ) (m : String) (failed : Err) → Keeps I (report o e m failed)
  report_any e m failed =
      Keeps-report I o (λ _. Unit {0}) (λ c w _. keep c w) e m failed (λ _ _. tt)

  pub is_running-Keeps : (p : Program) → Keeps I (is_running o p)
  unfolding is_running
  is_running-Keeps p =
      Keeps-bind (Keeps-need p.environment)
        λ e. Keeps-ask_flag I o (λ _. Unit {0}) (λ c w _. keep c w) (Call.is_running e) tt

  pub start-Keeps : (p : Program) → Keeps I (start o p)
  start-Keeps = start-starts o (λ c w _. keep c w)

  pub stop-Keeps : (p : Program) → Keeps I (stop o p)
  stop-Keeps = stop-stops o (λ c w _. keep c w)

  pub create-Keeps : (p : Program) → Keeps I (create o p)
  unfolding create
  create-Keeps p = Keeps-bind (Keeps-need p.environment) λ e. Keeps-then (tell_any _) (
      Keeps-bind (ask_any _) λ result.
        Keeps-option result (Keeps-then (tell_any _) (Keeps-then (tell_any _) (Keeps-pure none)))
          (λ x. Keeps-then (report_any e _ x) (Keeps-pure (some x))))

  pub destroy-Keeps : (p : Program) → Keeps I (destroy o p)
  unfolding destroy
  destroy-Keeps p = Keeps-bind (Keeps-need p.environment) λ e.
      Keeps-bind (run_section-Keeps o (λ c w _. keep c w) p e p.uninstallation _) λ undone.
        Keeps-if (is_some undone) (Keeps-pure undone) (
          Keeps-bind (ask_any _) λ result.
            Keeps-option result (Keeps-pure none)
              (λ x. Keeps-then (report_any e _ x) (Keeps-pure (some x))))
