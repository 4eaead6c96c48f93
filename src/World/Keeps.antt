-- ===== src/World/Keeps.antt =====
-- Invariants of runs: what every call keeps, a whole function keeps.
use pufferd.Common.{
  append_assoc, ◌≡◌, refl, sym, ap, ◌∙◌, [], ◌++◌, get_elem?, ℕ, String, Bool, List, true, false,
  Option, none, some, if◌then◌else◌,
}
use pufferd.Types.{Program, Err, Result, ok, err}
use pufferd.World.{
  deref, Call, World, Outside, Outcome, ret, panic, Go, pure, crash, ◌>>=◌, ◌>>◌, final,
  record_call, ask, ask_flag, ask_names, ask_reply, ask_entries, ask_info, tell, need, allowed,
  report, stepping,
}

pub record Keeps {A : Type 0} (I : World → Type 0) (m : Go A) : Type 0 where
  pub at : (w : World) → I w → I (final (m w))

module _ {I : World → Type 0} where
  pub Keeps-pure : {A : Type 0} (a : A) → Keeps I (pure a)
  unfolding stepping
  Keeps-pure a = record { at = λ w h. h }

  pub Keeps-crash : {A : Type 0} → Keeps {A = A} I crash
  unfolding stepping
  Keeps-crash = record { at = λ w h. h }

  pub Keeps-bind :
      {A B : Type 0} {m : Go A} {f : A → Go B}
      → Keeps I m
      → ((a : A) → Keeps I (f a))
      → Keeps I (m >>= f)
  unfolding stepping
  Keeps-bind {m} {f} hm hf = record { at = λ w h. go (m w) (hm.at w h) }
    where
      go :
          (r : Outcome _) → I (final r) → I (final (elim r [ ret a v ↦ f a v | panic v ↦ panic v ]))
      go (ret a v) h = (hf a).at v h
      go (panic v) h = h

  pub Keeps-then : {A B : Type 0} {m : Go A} {k : Go B} → Keeps I m → Keeps I k → Keeps I (m >> k)
  unfolding ◌>>◌
  Keeps-then hm hk = Keeps-bind hm (λ _. hk)

  pub Keeps-if :
      {A : Type 0} (b : Bool) {m k : Go A} → Keeps I m → Keeps I k → Keeps I (if b then m else k)
  Keeps-if true hm hk = hm
  Keeps-if false hm hk = hk

  pub Keeps-option :
      {A B : Type 0} (x : Option A) {m : Go B} {f : A → Go B}
      → Keeps I m
      → ((a : A) → Keeps I (f a))
      → Keeps I (elim x [ none ↦ m | some a ↦ f a ])
  Keeps-option none hm hf = hm
  Keeps-option (some a) hm hf = hf a

  pub Keeps-result :
      {A B : Type 0} (x : Result A) {m : Err → Go B} {f : A → Go B}
      → ((e : Err) → Keeps I (m e))
      → ((a : A) → Keeps I (f a))
      → Keeps I (elim x [ err e ↦ m e | ok a ↦ f a ])
  Keeps-result (err e) hm hf = hm e
  Keeps-result (ok a) hm hf = hf a

  pub Keeps-need : (e : Option ℕ) → Keeps I (need e)
  unfolding stepping
  Keeps-need none = record { at = λ w h. h }
  Keeps-need (some e) = record { at = λ w h. h }

module _ {I : World → Type 0} where
  pub Keeps-allowed : (o : Outside) (path root : String) → Keeps I (allowed o path root)
  unfolding stepping
  Keeps-allowed o path root = record { at = λ w h. h }

  pub Keeps-deref : (p : ℕ) → Keeps I (deref p)
  unfolding stepping
  Keeps-deref p = record { at = λ w h. found w h (get_elem? w.heap p) }
    where
      found :
          (w : World)
          → I w
          → (x : Option Program)
          → I (
              final (elim x as (λ _. Outcome Program) [
                | some program ↦ ret program w
                | none ↦ panic w
              ]))
      found w h none = h
      found w h (some program) = h

  -- A value read off the state.
  pub Keeps-read : {A : Type 0} (f : World → A) → Keeps I (λ w. ret (f w) w)
  Keeps-read f = record { at = λ w h. h }

-- The calls that are admitted, if the invariant outlives each of them.
module _ (I : World → Type 0) (o : Outside) (Admits : Call → Type 0)
    (keep : (c : Call) (w : World) → Admits c → I w → I (record_call c w)) where
  pub Keeps-ask : (c : Call) → Admits c → Keeps I (ask o c)
  unfolding stepping
  Keeps-ask c a = record { at = λ w h. keep c w a h }

  pub Keeps-ask_flag : (c : Call) → Admits c → Keeps I (ask_flag o c)
  unfolding stepping
  Keeps-ask_flag c a = record { at = λ w h. keep c w a h }

  pub Keeps-ask_info : (c : Call) → Admits c → Keeps I (ask_info o c)
  unfolding stepping
  Keeps-ask_info c a = record { at = λ w h. keep c w a h }

  pub Keeps-ask_entries : (c : Call) → Admits c → Keeps I (ask_entries o c)
  unfolding stepping
  Keeps-ask_entries c a = record { at = λ w h. keep c w a h }

  pub Keeps-ask_names : (c : Call) → Admits c → Keeps I (ask_names o c)
  unfolding stepping
  Keeps-ask_names c a = record { at = λ w h. keep c w a h }

  pub Keeps-ask_reply : (c : Call) → Admits c → Keeps I (ask_reply o c)
  unfolding stepping
  Keeps-ask_reply c a = record { at = λ w h. keep c w a h }

  pub Keeps-tell : (c : Call) → Admits c → Keeps I (tell o c)
  unfolding stepping
  Keeps-tell c a = record { at = λ w h. keep c w a h }

  pub Keeps-report :
      (e : ℕ) (message : String) (failed : Err)
      → ((m : String) (ms : List String) → Admits (Call.display e m ms))
      → Keeps I (report o e message failed)
  unfolding stepping
  Keeps-report e message failed a = record { at = λ w h. keep _ _ (a _ _) (keep _ w (a _ _) h) }

-- A run whose first part keeps an invariant ends as its second part does from there, or by a panic.
pub bind_outcome :
    {A B : Type 0} (I : World → Type 0) (Post : Outcome B → Type 0) (m : Go A) (f : A → Go B)
    → Keeps I m
    → ((a : A) (w : World) → I w → Post (f a w))
    → ((w : World) → I w → Post (panic w))
    → (w : World) → I w
    → Post ((m >>= f) w)
unfolding stepping
bind_outcome {A} {B} I Post m f hm hf weaken w h = ends (m w) (hm.at w h)
  where
    ends :
        (r : Outcome A)
        → I (final r)
        → Post (elim r as (λ _. Outcome B) [ ret a v ↦ f a v | panic v ↦ panic v ])
    ends (ret a v) h = hf a v h
    ends (panic v) h = weaken v h

pub bind_final :
    {A B : Type 0} (I : World → Type 0) (J : World → Type 0) (m : Go A) (f : A → Go B)
    → Keeps I m
    → ((a : A) (w : World) → I w → J (final (f a w)))
    → ((w : World) → I w → J w)
    → (w : World) → I w
    → J (final ((m >>= f) w))
bind_final I J m f hm hf weaken = bind_outcome I (λ r. J (final r)) m f hm hf weaken

-- A history that goes on another.
abbrev pub Follows : List Call → List Call → Type 0
Follows now start = (more : List Call) × (now ≡ more ++ start)

pub Follows-self : (t : List Call) → Follows t t
Follows-self t = ([], refl)

pub Follows-trans : {a b c : List Call} → Follows c b → Follows b a → Follows c a
Follows-trans {a} (more, e) (less, d) =
    (more ++ less, e ∙ ap (λ t. more ++ t) d ∙ sym (append_assoc more less a))
