-- ===== src/Program/Calls.antt =====
-- Which calls the methods of a server may make (programs/program.go).
use pufferd.Common.{
  ℕ, suc, String, Bool, List, [], ◌∷◌, true, false, Option, none, some, is_some, if◌then◌else◌, ◌≡◌,
  refl, not, get_elem?, set, nat_beq,
}
use pufferd.Types.{Err, Program, is_exist, FileDesc, FileInfo}
use pufferd.World.{Call, World, Outside, record_call, ask, tell, report}
use pufferd.World.Keeps.{
  Keeps, Keeps-pure, Keeps-crash, Keeps-bind, Keeps-then, Keeps-if, Keeps-option, Keeps-need,
  Keeps-ask, Keeps-ask_flag, Keeps-ask_entries, Keeps-tell, Keeps-report, Keeps-read, Keeps-allowed,
}
use pufferd.Operations.Steps.{is_step}
use pufferd.Program.Safety.{run_section-Keeps}
use pufferd.Program.Lifecycle.{
  launch, start_stopped, start, conclude, stop, stop_call, kill, non_empty, install_files,
  install_stopped, install,
}
use pufferd.Program.Files.{fill, describe, list_folder, read_item, get_item, on_allowed}

-- Starting: the operations before it, and the process itself.
abbrev pub starts : Call → Bool
starts (Call.execute_async e cmd args env (some id)) = true
starts (Call.is_running e) = true
starts c = is_step c

-- Stopping and killing.
abbrev pub stops : Call → Bool
stops (Call.is_running e) = true
stops (Call.display e m ms) = true
stops (Call.send_code e n) = true
stops (Call.execute_in_main_process e cmd) = true
stops (Call.kill e) = true
stops _ = false

-- Installing: the operations, and stopping what runs, which does not kill it.
abbrev pub installs : Call → Bool
installs (Call.is_running e) = true
installs (Call.send_code e n) = true
installs (Call.execute_in_main_process e cmd) = true
installs c = is_step c

-- Looking at files.
abbrev pub looks : Call → Bool
looks (Call.stat path) = true
looks (Call.read_dir path) = true
looks (Call.open_file path) = true
looks (Call.read_file path) = true
looks (Call.close_file path) = true
looks _ = false

step-starts : (c : Call) → is_step c ≡ true → starts c ≡ true
step-starts (Call.execute_async e cmd args env (some id)) h = refl
step-starts (Call.is_running e) h = refl
step-starts c h = h

step-installs : (c : Call) → is_step c ≡ true → installs c ≡ true
step-installs (Call.is_running e) h = refl
step-installs (Call.send_code e n) h = refl
step-installs (Call.execute_in_main_process e cmd) h = refl
step-installs c h = h

-- A run whose calls pass a test, where the invariant outlives the calls that pass it.
module _ {I : World → Type 0} (o : Outside) (P : Call → Bool)
    (keep : (c : Call) (w : World) → P c ≡ true → I w → I (record_call c w)) where
  abbrev Passes : Call → Type 0
  Passes c = P c ≡ true

  do_ask : (c : Call) → Passes c → Keeps I (ask o c)
  do_ask = Keeps-ask I o Passes keep

  do_tell : (c : Call) → Passes c → Keeps I (tell o c)
  do_tell = Keeps-tell I o Passes keep

  do_report :
      (e : ℕ) (message : String) (failed : Err)
      → ((m : String) (ms : List String) → Passes (Call.display e m ms))
      → Keeps I (report o e message failed)
  do_report e message failed = Keeps-report I o Passes keep e message failed

  concluded :
      (e : ℕ) (bad good : String) (result : Option Err)
      → ((m : String) (ms : List String) → Passes (Call.display e m ms))
      → Keeps I (conclude o e bad good result)
  unfolding conclude
  concluded e bad good none shows = Keeps-then (do_tell _ (shows _ _)) (Keeps-pure none)
  concluded e bad good (some x) shows = Keeps-then (do_report e _ x shows) (Keeps-pure (some x))

  -- `Stop`, by whoever may ask, signal and write to the process.
  stop_if :
      (p : Program)
      → ((e : ℕ) → Passes (Call.is_running e))
      → ((e : ℕ) (m : String) (ms : List String) → Passes (Call.display e m ms))
      → ((e n : ℕ) → Passes (Call.send_code e n))
      → ((e : ℕ) (cmd : String) → Passes (Call.execute_in_main_process e cmd))
      → Keeps I (stop o p)
  unfolding stop stop_call
  stop_if p asks shows signals writes = Keeps-bind (Keeps-need p.environment) λ e.
      Keeps-bind (Keeps-ask_flag I o Passes keep _ (asks e)) λ asked. Keeps-if _ (Keeps-pure _) (
        Keeps-bind (do_ask (stop_call p e) (called e (not (nat_beq p.execution.stop_code 0))))
          λ result. concluded e _ _ result (shows e))
    where
      called :
          (e : ℕ) (coded : Bool)
          → Passes (
              if coded
              then Call.send_code e p.execution.stop_code
              else Call.execute_in_main_process e p.execution.stop_command)
      called e true = signals e _
      called e false = writes e _

module _ {I : World → Type 0} (o : Outside) where
  pub start-starts :
      ((c : Call) (w : World) → starts c ≡ true → I w → I (record_call c w))
      → (p : Program) → Keeps I (start o p)
  unfolding start start_stopped launch
  start-starts keep p = Keeps-if _ (Keeps-pure _) (
      Keeps-bind (Keeps-need p.environment) λ e.
        Keeps-bind (Keeps-ask_flag I o (λ c. starts c ≡ true) keep _ refl) λ asked.
          Keeps-if _ (Keeps-pure _) (
            Keeps-then (do_tell o starts keep _ refl) (
              Keeps-bind
                (run_section-Keeps o (λ c w s. keep c w (step-starts c s)) p e
                  p.execution.pre_execution _)
                λ prepared. Keeps-if (is_some prepared) (Keeps-pure prepared) (launched e))))
    where
      launched : (e : ℕ) → Keeps I (launch o p e)
      launched e = Keeps-bind (do_ask o starts keep _ refl) λ failed.
          Keeps-option failed (Keeps-pure none)
            (λ x. Keeps-then (do_report o starts keep e _ x (λ _ _. refl)) (Keeps-pure (some x)))

  module _ (keep : (c : Call) (w : World) → stops c ≡ true → I w → I (record_call c w)) where
    pub stop-stops : (p : Program) → Keeps I (stop o p)
    stop-stops p = stop_if o stops keep p (λ _. refl) (λ _ _ _. refl) (λ _ _. refl) (λ _ _. refl)

    pub kill-stops : (p : Program) → Keeps I (kill o p)
    unfolding kill
    kill-stops p = Keeps-bind (Keeps-need p.environment) λ e.
        Keeps-bind (do_ask o stops keep _ refl)
          λ result. concluded o stops keep e _ _ result (λ _ _. refl)

  module _ (keep : (c : Call) (w : World) → installs c ≡ true → I w → I (record_call c w)) where
    install_files-installs :
        (p : Program) (e : ℕ) (made : Option Err) → Keeps I (install_files o p e made)
    unfolding install_files
    install_files-installs p e made =
        Keeps-bind
          (Keeps-if (non_empty p.installation)
            (run_section-Keeps o (λ c w s. keep c w (step-installs c s)) p e _ _) (Keeps-pure none))
          λ done.
            Keeps-if (is_some done) (Keeps-pure done)
              (Keeps-then (do_tell o installs keep _ refl) (Keeps-pure made))

    install_stopped-installs :
        (p : Program) (e : ℕ) (stopped : Option Err) → Keeps I (install_stopped o p e stopped)
    unfolding install_stopped
    install_stopped-installs p e (some failed) =
        Keeps-then (do_report o installs keep e _ failed (λ _ _. refl)) (Keeps-pure _)
    install_stopped-installs p e none = Keeps-then (do_tell o installs keep _ refl) (
        Keeps-bind (do_ask o installs keep _ refl) λ made.
          Keeps-option made (install_files-installs p e none) (λ failed.
            Keeps-if (is_exist (some failed)) (install_files-installs p e _)
              (Keeps-then (do_report o installs keep e _ failed (λ _ _. refl)) (Keeps-pure _))))

    pub install-installs : (p : Program) → Keeps I (install o p)
    unfolding install
    install-installs p = Keeps-if _ (Keeps-pure _) (
        Keeps-bind (Keeps-need p.environment) λ e.
          Keeps-bind (Keeps-ask_flag I o (λ c. installs c ≡ true) keep _ refl) λ (running, failed).
            Keeps-if (is_some failed) (Keeps-then (do_tell o installs keep _ refl) (Keeps-pure _)) (
              Keeps-bind
                (Keeps-if running
                  (stop_if o installs keep p (λ _. refl) (λ _ _ _. refl) (λ _ _. refl)
                    (λ _ _. refl))
                  (Keeps-pure none))
                λ stopped. install_stopped-installs p e stopped))

  module _ (keep : (c : Call) (w : World) → looks c ≡ true → I w → I (record_call c w)) where
    fill-Keeps :
        (names : List FileDesc) (i : ℕ) (infos : List FileInfo) → Keeps I (fill names i infos)
    unfolding fill
    fill-Keeps names i [] = Keeps-pure names
    fill-Keeps names i (info ∷ infos) =
        Keeps-option (get_elem? names i) Keeps-crash
          (λ old. fill-Keeps (set names i (describe info)) (suc i) infos)

    list_folder-looks :
        (target root : String) (at_root : Bool) → Keeps I (list_folder o target root at_root)
    unfolding list_folder
    list_folder-looks target root at_root =
        Keeps-bind (Keeps-ask_entries I o (λ c. looks c ≡ true) keep _ refl) λ listed.
          Keeps-bind (Keeps-read _) λ valid. Keeps-bind (fill-Keeps _ _ valid) λ names. Keeps-pure _

    read_item-looks : (target : String) → Keeps I (read_item o target)
    unfolding read_item
    read_item-looks target = Keeps-bind (do_ask o looks keep _ refl) λ failed.
        Keeps-bind (Keeps-read _) λ size.
          Keeps-bind (Keeps-read _) λ info. Keeps-if (is_some failed) (Keeps-pure _) (Keeps-pure _)

    pub get_item-looks : (p : Program) (name : String) → Keeps I (get_item o p name)
    unfolding get_item
    get_item-looks p name = Keeps-bind (Keeps-need p.environment) λ e.
        Keeps-bind (Keeps-allowed o _ _) λ access. Keeps-if (not access) (Keeps-pure _) (
          Keeps-bind (Keeps-ask_flag I o (λ c. looks c ≡ true) keep _ refl) λ (is_dir, missing).
            Keeps-if (is_some missing) (Keeps-pure _)
              (Keeps-if is_dir (list_folder-looks _ _ _) (read_item-looks _)))

  -- The one call on a file that is allowed.
  pub on_allowed-Keeps :
      (p : Program) (name : String) (act : String → Call)
      → ((path : String) (w : World) → I w → I (record_call (act path) w))
      → Keeps I (on_allowed o p name act)
  unfolding ask
  on_allowed-Keeps p name act keep =
      Keeps-bind (Keeps-need p.environment) λ e.
        Keeps-bind (Keeps-allowed o _ _) λ access. Keeps-if (not access) (Keeps-pure _) (acted _)
    where
      acted : (path : String) → Keeps I (ask o (act path))
      acted path = record { at = λ w h. keep path w h }
