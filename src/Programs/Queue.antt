-- ===== src/Programs/Queue.antt =====
-- The start service against a plain queue.
use pufferd.Common.{
  ℕ, Bool, List, [], ◌∷◌, ◌++◌, true, false, if◌then◌else◌, ◌≡◌, refl, arith, ap, ◌∙◌,
}
use pufferd.World.{World, Outside, pure, ◌>>=◌, ◌>>◌, final, deref}
use pufferd.World.Keeps.{Keeps, Keeps-deref, Keeps-pure, Keeps-bind, Keeps-then, Keeps-if}
use pufferd.Program.Lifecycle.{is_running, start}
use pufferd.Program.Keeps.{is_running-Keeps, start-Keeps}
use pufferd.Programs.Exit.{start_via_service, shutdown_service, process_queue}

-- What happens to the service, in the order in which its lock is taken.
pub data Event : Type 0 where
  enqueue : ℕ → Event
  tick : Event
  shut_down : Event

-- The state behind an event; a panic of a tick leaves the state that it has reached.
abbrev pub serve : Outside → Event → World → World
serve o (enqueue p) w = start_via_service p w
serve o tick w = final (process_queue o w)
serve o shut_down w = shutdown_service w

abbrev pub serve_all : Outside → List Event → World → World
serve_all o [] w = w
serve_all o (e ∷ es) w = serve_all o es (serve o e w)

-- The specification: a queue of servers and whether it is open.
abbrev pub View : Type 0
View = List ℕ × Bool

abbrev without_first : List ℕ → List ℕ
without_first [] = []
without_first (p ∷ ps) = ps

abbrev pub expected : Event → View → View
expected (enqueue p) (q, true) = (q ++ p ∷ [], true)
expected (enqueue p) (q, false) = (q, false)
expected tick (q, on) = (without_first q, on)
expected shut_down (q, on) = (q, false)

abbrev pub expected_all : List Event → View → View
expected_all [] v = v
expected_all (e ∷ es) v = expected_all es (expected e v)

abbrev pub view : World → View
view w = (w.queue, w.running)

abbrev Shows : View → World → Type 0
Shows v w = view w ≡ v

tick-Shows :
    (o : Outside) (v : View) (p : ℕ)
    → Keeps (Shows v) (
        deref p >>= λ program.
        is_running o program >>= λ (run, _). if run then pure tt else start o program >> pure tt)
tick-Shows o v p = Keeps-bind (Keeps-deref p) λ program.
    Keeps-bind (is_running-Keeps o (λ c w h. h) program) λ asked.
      Keeps-if _ (Keeps-pure tt) (Keeps-then (start-Keeps o (λ c w h. h) program) (Keeps-pure tt))

serve-expected : (o : Outside) (e : Event) (w : World) → view (serve o e w) ≡ expected e (view w)
unfolding start_via_service shutdown_service process_queue
serve-expected o (enqueue p) w = ground arith
serve-expected o shut_down w = refl
serve-expected o tick w = ticked w.queue
  where
    ticked :
        (q : List ℕ)
        → view (final (process_queue o (record w { queue = q }))) ≡ expected tick (q, w.running)
    ticked [] = refl
    ticked (p ∷ ps) = (tick-Shows o (ps, w.running) p).at (record w { queue = ps }) refl

-- The service is a first-in first-out queue: after any calls of `StartViaService`, ticks and shutdown
-- its queue and flag are those of the plain queue. A tick takes the oldest server off, whatever
-- becomes of starting it, and after a shutdown nothing is added.
pub serve_all-expected :
    (o : Outside) (es : List Event) (w : World) → view (serve_all o es w) ≡ expected_all es (view w)
serve_all-expected o [] w = refl
serve_all-expected o (e ∷ es) w =
    serve_all-expected o es (serve o e w) ∙ ap (expected_all es) (serve-expected o e w)
