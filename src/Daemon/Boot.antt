-- ===== src/Daemon/Boot.antt =====
-- The servers at the start and at the end of the daemon (entry/entry.go, shutdown/shutdown.go).
use pufferd.Common.{
  ℕ, Bool, List, [], ◌∷◌, ◌++◌, false, Option, none, some, ◌≡◌, refl, ◌∙◌, get_elem?, keep_if, ◌&&◌,
}
use pufferd.Types.{Program}
use pufferd.World.{
  Call, World, Outside, Outcome, ret, panic, Go, pure, ◌>>=◌, ◌>>◌, final, record_call, deref,
}
use pufferd.World.Runs.{then-ret}
use pufferd.World.Keeps.{Keeps, Keeps-pure, Keeps-bind, Keeps-if, Keeps-need, Keeps-tell}
use pufferd.Program.{is_enabled, is_auto_start}
use pufferd.Program.Keeps.{stop-Keeps, is_running-Keeps}
use pufferd.Programs.Exit.{start_via_service, shutdown_service}
use pufferd.Daemon.{shut, shielded, shut_all, shutdown}

-- Whether a server starts with the daemon.
abbrev pub starts : List Program → ℕ → Bool
starts heap p = elim (get_elem? heap p) [
  | none ↦ false
  | some program ↦ is_enabled program && is_auto_start program
]

-- A server that is there and has an environment.
pub record IsReady (heap : List Program) (p : ℕ) : Type 0 where
  pub program : Program
  pub there : get_elem? heap p ≡ some program
  pub environment : ℕ
  pub has_environment : program.environment ≡ some environment

-- The state behind the greetings, by what they change.
pub record Greeted (w v : World) (ps : List ℕ) : Type 0 where
  pub same_heap : v.heap ≡ w.heap
  pub same_running : v.running ≡ w.running
  pub queued : v.queue ≡ w.queue ++ keep_if (starts w.heap) ps

-- A state in which the start queue is closed, with what waits in it.
record Closed (queue : List ℕ) (w : World) : Type 0 where
  closed : w.running ≡ false
  waiting : w.queue ≡ queue

module _ (o : Outside) (q : List ℕ) where
  keep-Closed : (c : Call) (w : World) → Closed q w → Closed q (record_call c w)
  keep-Closed c w h = record { closed = h.closed; waiting = h.waiting }

  Closed-deref : (p : ℕ) → Keeps (Closed q) (deref p)
  unfolding deref
  Closed-deref p = record { at = λ w h. found w h (get_elem? w.heap p) }
    where
      found :
          (w : World)
          → Closed q w
          → (x : Option Program)
          → Closed q (
              final (elim x as (λ _. Outcome Program) [
                | some program ↦ ret program w
                | none ↦ panic w
              ]))
      found w h none = h
      found w h (some program) = h

  shut-Keeps : (p : ℕ) → Keeps (Closed q) (shut o p)
  unfolding shut
  shut-Keeps p = Keeps-bind (Closed-deref p) λ program.
      Keeps-bind (is_running-Keeps o keep-Closed program) λ run. Keeps-if _ (Keeps-pure tt) (
        Keeps-bind (stop-Keeps o keep-Closed program) λ failed. Keeps-if _ (Keeps-pure tt) (
          Keeps-bind (Keeps-need program.environment)
            λ e. Keeps-tell _ o (λ _. Unit {0}) (λ c w _. keep-Closed c w) _ tt))

  shielded-ret : (m : Go (Unit {0})) (w : World) → shielded m w ≡ ret tt (final (m w))
  unfolding shielded
  shielded-ret m w = go (m w)
    where
      go :
          (r : Outcome (Unit {0}))
          → (elim r as (λ _. Outcome (Unit {0})) [ ret _ v ↦ ret tt v | panic v ↦ ret tt v ])
            ≡ ret tt (final r)
      go (ret x v) = refl
      go (panic v) = refl

  shut_all-Closed :
      (ps : List ℕ) (w : World)
      → Closed q w
      → (v : World) × (shut_all o ps w ≡ ret tt v) × Closed q v
  unfolding shut_all pure
  shut_all-Closed [] w h = (w, refl, h)
  shut_all-Closed (p ∷ ps) w h =
      let (v, e, k) = shut_all-Closed ps (final (shut o p w)) ((shut-Keeps p).at w h) in
      (v, then-ret _ _ w (shielded-ret (shut o p) w) ∙ e, k)

-- The shutdown comes to its end without a panic, also where the end of a server panics, and from its
-- first step on the start queue is closed: nothing is queued by it, and nothing can be queued behind it.
pub shutdown-closed :
    (o : Outside) (w : World)
    → (v : World) × (shutdown o w ≡ ret tt v)
      × (v.queue ≡ w.queue)
      × ((p : ℕ) → start_via_service p v ≡ v)
unfolding shutdown shutdown_service start_via_service ◌>>=◌ ◌>>◌
shutdown-closed o w =
    let (v, e, h) =
      shut_all-Closed o w.queue w.all_programs (shutdown_service w)
        (record { closed = refl; waiting = refl }) in
    (v, e, h.waiting, λ p. rw h.closed refl)
