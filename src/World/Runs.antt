-- ===== src/World/Runs.antt =====
-- Following a run: how a sequence goes on behind a part whose result is known.
use pufferd.Common.{ℕ, Option, none, some, ◌≡◌, refl, arith, get_elem?, ap, ◌∙◌}
use pufferd.Types.{Program}
use pufferd.World.{World, Outcome, ret, panic, Go, pure, crash, ◌>>=◌, ◌>>◌, need, deref}

module _ {A B : Type 0} where
  abbrev pub then_run : (A → Go B) → Outcome A → Outcome B
  then_run f (ret a v) = f a v
  then_run f (panic v) = panic v

  pub bind-eq : (m : Go A) (f : A → Go B) (w : World) → (m >>= f) w ≡ then_run f (m w)
  unfolding ◌>>=◌
  bind-eq m f w = split (m w)
    where
      split :
          (r : Outcome A)
          → (elim r as (λ _. Outcome B) [ ret a v ↦ f a v | panic v ↦ panic v ]) ≡ then_run f r
      split (ret a v) = refl
      split (panic v) = refl

  pub bind-ret :
      (m : Go A) (f : A → Go B) (w : World) {v : World} {a : A}
      → m w ≡ ret a v
      → (m >>= f) w ≡ f a v
  bind-ret m f w h = bind-eq m f w ∙ ap (then_run f) h

  pub bind-panic :
      (m : Go A) (f : A → Go B) (w : World) {v : World} → m w ≡ panic v → (m >>= f) w ≡ panic v
  bind-panic m f w h = bind-eq m f w ∙ ap (then_run f) h

  pub then-ret :
      (m : Go A) (k : Go B) (w : World) {v : World} {a : A} → m w ≡ ret a v → (m >> k) w ≡ k v
  unfolding ◌>>◌
  then-ret m k w h = bind-ret m (λ _. k) w h

pub deref-some :
    (p : ℕ) (w : World) {program : Program}
    → get_elem? w.heap p ≡ some program
    → deref p w ≡ ret program w
unfolding deref
deref-some p w h = ground arith

pub deref-none : (p : ℕ) (w : World) → get_elem? w.heap p ≡ none → deref p w ≡ panic w
unfolding deref
deref-none p w h = ground arith

pub need-some : (x : Option ℕ) {e : ℕ} (w : World) → x ≡ some e → need x w ≡ ret e w
unfolding need pure
need-some x w h = ground arith

pub need-none : (x : Option ℕ) (w : World) → x ≡ none → need x w ≡ panic w
unfolding need crash
need-none x w h = ground arith
