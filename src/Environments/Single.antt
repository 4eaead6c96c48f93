-- ===== src/Environments/Single.antt =====
-- The processes of an environment of the kind tty.
use pufferd.Common.{
  ℕ, ◌+◌, ◌≤◌, List, [], ◌∷◌, false, ◌≡◌, refl, arith, length, ◌⊎◌, ◌↔◌, inl, inr, ap, subst, ◌∙◌,
}
use pufferd.Environments.{
  System, Main, nothing, unstarted, started, Callback, Launch, no_pipe, no_start, start, drop_all,
  runs,
}
use pufferd.Environments.Tty
use pufferd.Environments.Steps.{
  tty, Step, call, pass, go, exit, reaped, finished, closed, Reach, here, next, fresh,
}

-- Where an environment stands: no command, a command that did not start, or one that is attended.
data Phase (s : System) : Type 0 where
  idle :
      s.wait ≡ 0
      → s.attending ≡ []
      → s.alive ≡ []
      → length s.checked + length s.passed ≤ 1
      → Phase s
  busy :
      (pid : ℕ) (c : Callback)
      → s.wait ≡ 1
      → s.attending ≡ (pid, c) ∷ []
      → s.main ≡ started pid
      → (s.alive ≡ []) ⊎ (s.alive ≡ pid ∷ [])
      → length s.checked ≤ 1
      → s.passed ≡ []
      → Phase s
  dead :
      s.wait ≡ 1 → s.attending ≡ [] → s.alive ≡ [] → length s.checked ≤ 1 → s.passed ≡ [] → Phase s

no_more :
    (n : ℕ) (c : Callback) (rest p : List Callback) → p ≡ c ∷ rest → n + length p ≤ 1 → rest ≡ []
no_more n c [] p h le = refl
no_more n c (d ∷ rest) p h le = absurd (omega (arith, ap length h))

one_or_none :
    (pid : ℕ) (a b : List ℕ) → a ≡ b → (a ≡ []) ⊎ (a ≡ pid ∷ []) → (b ≡ []) ⊎ (b ≡ pid ∷ [])
one_or_none pid a b e h = subst (λ l. (l ≡ []) ⊎ (l ≡ pid ∷ [])) e h

no_other : (pid : ℕ) → drop_all pid (pid ∷ []) ≡ []
no_other pid = ground arith

go-Phase :
    (l : Launch) (c : Callback) (rest : List Callback) (s t : System)
    → s.passed ≡ c ∷ rest
    → s.wait ≡ 0
    → s.attending ≡ []
    → s.alive ≡ []
    → length s.checked + length s.passed ≤ 1
    → t ≡ (Tty.launch l c rest s).1
    → Phase t
unfolding Tty.launch
go-Phase (no_pipe e) c rest s t p w a v n h =
    dead (ground arith) (ground arith) (ground arith) (ground arith)
      (ground (arith, no_more (length s.checked) c rest s.passed p n))
go-Phase (no_start e) c rest s t p w a v n h =
    dead (ground arith) (ground arith) (ground arith) (ground arith)
      (ground (arith, no_more (length s.checked) c rest s.passed p n))
go-Phase (start pid) c rest s t p w a v n h =
    busy pid c (ground arith) (ground arith) (ground arith) (inr (ground arith)) (ground arith)
      (ground (arith, no_more (length s.checked) c rest s.passed p n))

Step-Phase : {s t : System} → Step tty s t → Phase s → Phase t
unfolding Tty.check Tty.handle_close
Step-Phase {s} (call c nc np ok e) (idle w a v n) =
    idle (ground arith) (ground arith) (ground arith) (ground arith)
Step-Phase {s} {t} (call c nc np ok e) (busy pid d w a m v n p) =
    busy pid d (ground arith) (ground arith) (ground arith)
      (one_or_none pid s.alive t.alive (ground arith) v) (ground arith) (ground arith)
Step-Phase (call c nc np ok e) (dead w a v n p) =
    dead (ground arith) (ground arith) (ground arith) (ground arith) (ground arith)
Step-Phase (pass c rest h z e) (idle w a v n) =
    idle (ground arith) (ground arith) (ground arith) (ground arith)
Step-Phase (pass c rest h z e) (busy pid d w a m v n p) = absurd (omega arith)
Step-Phase (pass c rest h z e) (dead w a v n p) = absurd (omega arith)
Step-Phase {s} {t} (go l c rest h f e) (idle w a v n) = go-Phase l c rest s t h w a v n e
Step-Phase (go l c rest h f e) (busy pid d w a m v n p) = cc
Step-Phase (go l c rest h f e) (dead w a v n p) = cc
Step-Phase (exit pid h e) (idle w a v n) = absurd (ground arith)
Step-Phase (exit pid h e) (busy q d w a m (inl v) n p) = absurd (ground arith)
Step-Phase (exit pid h e) (busy q d w a m (inr v) n p) =
    busy q d (ground arith) (ground arith) (ground arith) (inl (ground arith)) (ground arith)
      (ground arith)
Step-Phase (exit pid h e) (dead w a v n p) = absurd (ground arith)
Step-Phase (reaped pid c rest k h f e) ph = cc
Step-Phase (finished ok success pid c rest k h e) ph = cc
Step-Phase (closed ok success pid c rest k h f e) (idle w a v n) = cc
Step-Phase (closed ok success pid c rest k h f e) (busy q d w a m (inl v) n p) =
    idle (ground arith) (ground arith) (ground arith) (ground arith)
Step-Phase (closed ok success pid c rest k h f e) (busy q d w a m (inr v) n p) =
    absurd (ground arith)
Step-Phase (closed ok success pid c rest k h f e) (dead w a v n p) = cc

fresh-Phase : Phase fresh
fresh-Phase = idle refl refl refl (omega arith)

Reach-Phase : {t : System} → Reach tty fresh t → Phase t
Reach-Phase here = fresh-Phase
Reach-Phase (next r st) = Step-Phase st (Reach-Phase r)

Phase-single :
    (s : System)
    → Phase s
    → (s.alive ≡ []) ⊎ ((pid : ℕ) × (s.alive ≡ pid ∷ []) × (s.main ≡ started pid))
Phase-single s (idle w a v n) = inl v
Phase-single s (busy pid c w a m (inl v) n p) = inl v
Phase-single s (busy pid c w a m (inr v) n p) = inr (pid, v, m)
Phase-single s (dead w a v n p) = inl v

runs-nil : (m : Main) → runs m [] ≡ false
runs-nil nothing = refl
runs-nil unstarted = refl
runs-nil (started pid) = refl

single_iff :
    (s : System)
    → (s.alive ≡ []) ⊎ ((pid : ℕ) × (s.alive ≡ pid ∷ []) × (s.main ≡ started pid))
    → (runs s.main s.alive ≡ false) ↔ (s.alive ≡ [])
single_iff s (inl v) = (λ _. v, λ _. ap (runs s.main) v ∙ runs-nil s.main)
single_iff s (inr (pid, v, m)) = (λ h. absurd (ground arith), λ h. absurd (ground arith))

-- While the calls of `ExecuteAsync` come one at a time, an environment of the kind tty never has two
-- processes that run, and a process that runs is the one that the environment knows, whatever starts
-- fail, processes end and goroutines wait: `IsRunning` tells exactly whether one runs.
pub tty_single :
    {t : System}
    → Reach tty fresh t
    → ((t.alive ≡ []) ⊎ ((pid : ℕ) × (t.alive ≡ pid ∷ []) × (t.main ≡ started pid)))
      × ((Tty.is_running t ≡ false) ↔ (t.alive ≡ []))
unfolding Tty.is_running
tty_single {t} r = (Phase-single t (Reach-Phase r), single_iff t (Phase-single t (Reach-Phase r)))
