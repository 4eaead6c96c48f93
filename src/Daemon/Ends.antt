-- ===== src/Daemon/Ends.antt =====
-- How the daemon ends.
use pufferd.Common.{
  ℕ, suc, Bool, List, [], ◌∷◌, ◌++◌, true, false, Option, none, some, is_some, if◌then◌else◌, not,
  ◌≡◌, ◌⊎◌, inl, inr, arith, refl, All, ◌∙◌, sym, subst, length,
}
use pufferd.Types.{Err}
use pufferd.World.{World, Outside, Outcome, ret, panic, pure, crash}
use pufferd.World.Runs.{bind-eq, then_run, then-ret}
use pufferd.Programs.Exit.{start_via_service}
use pufferd.Daemon.{boot, shutdown}
use pufferd.Daemon.Boot.{shutdown-closed}
use pufferd.Daemon.Services.{
  Round, recover_panic, run_services, Loop, ended, serving, died, behind_round, run_rounds, Ending,
  sent, serves, finish_entry, entry,
}

-- A round behind which the loop goes on, and one behind which it ends.
abbrev pub GoesOn : Round → Type 0
GoesOn r = (recover_panic r.served ≡ some none) × (r.run_service ≡ true)

abbrev pub Stops : Round → Option Err → Type 0
Stops r e = (recover_panic r.served ≡ some e) × ((is_some e ≡ true) ⊎ (r.run_service ≡ false))

stopped :
    (r : Round) (e : Option Err) (after : List Round)
    → Stops r e
    → run_rounds r.run_service after e ≡ (ended e, [])
unfolding run_rounds
stopped r e [] (h, inl failed) = ground arith
stopped r e [] (h, inr off) = ground arith
stopped r e (x ∷ after) (h, inl failed) = ground arith
stopped r e (x ∷ after) (h, inr off) = ground arith

-- The loop over the services comes to its end at the first round that gives an error or behind which a
-- signal has asked for the end, with the error of that round; before it, every round that returns or
-- panics with an error is followed by another.
pub run_rounds-ends :
    (before after : List Round) (r : Round) (e : Option Err)
    → All GoesOn before
    → Stops r e
    → ((run_rounds true (before ++ r ∷ after) none).0 ≡ ended e)
      × (length (run_rounds true (before ++ r ∷ after) none).1 ≡ suc (length before))
      × ((run_rounds true before none).0 ≡ serving)
unfolding run_rounds run_services behind_round
run_rounds-ends [] after r e h stops = ground (arith, stopped r e after stops, stops.0)
run_rounds-ends (b ∷ before) after r e (h, more) stops =
    ground (arith, run_rounds-ends before after r e more stops, h.0, h.1)

-- What an end of the daemon leaves behind.
abbrev Left : Outcome (Option Err × Bool) → Outcome Ending → Type 0
Left start (ret (sent e) v) = (start ≡ ret (e, false) v) ⊎ ((p : ℕ) → start_via_service p v ≡ v)
Left start (ret serves v) = Unit
Left start (panic v) = Unit

finish_entry-Left :
    (o : Outside) (start : Outcome (Option Err × Bool)) (l : Loop) (w : World)
    → Left start (finish_entry o l w)
unfolding finish_entry pure crash
finish_entry-Left o start serving w = tt
finish_entry-Left o start died w = tt
finish_entry-Left o start (ended e) w =
    let (v, gone, same, closed) = shutdown-closed o w in
    rw (then-ret (shutdown o) (pure (sent e)) w gone) (inr closed)

booted-Left :
    (o : Outside) (run_service : Bool) (rounds : List Round) (start : Outcome (Option Err × Bool))
    → Left start (
        then_run
          (λ b.
            if not b.1
            then pure (sent b.0)
            else finish_entry o (run_rounds run_service rounds b.0).0)
          start)
unfolding pure
booted-Left o run_service rounds (ret (failed, true) v) = finish_entry-Left o _ _ v
booted-Left o run_service rounds (ret (failed, false) v) = inl refl
booted-Left o run_service rounds (panic v) = tt

-- Where the daemon gives its caller an answer, whatever its services did and signals asked for, it either
-- gave up at its start with this answer, or the start queue is closed for good: nothing can be queued
-- behind it.
pub entry-closed :
    (o : Outside) (run_service : Bool) (rounds : List Round) (e : Option Err) (w v : World)
    → entry o run_service rounds w ≡ ret (sent e) v
    → (boot o w ≡ ret (e, false) v) ⊎ ((p : ℕ) → start_via_service p v ≡ v)
unfolding entry
entry-closed o run_service rounds e w v h =
    subst (Left (boot o w)) (sym (bind-eq (boot o) _ w) ∙ h)
      (booted-Left o run_service rounds (boot o w))
