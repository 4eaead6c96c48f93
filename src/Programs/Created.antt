-- ===== src/Programs/Created.antt =====
-- What creating a server does to the list of servers (programs/loader.go, `Create`).
use pufferd.Common.{
  ℕ, String, List, [], ◌∷◌, ◌++◌, Option, none, some, ◌≡◌, refl, ap, ◌∙◌, get_elem?,
}
use pufferd.Types.{Err, server_already_exists, Result, ok, err, Program}
use pufferd.World.{
  Call, World, Outside, Outcome, ret, panic, Go, pure, crash, ◌>>=◌, ◌>>◌, record_call, ask, tell,
  deref, store,
}
use pufferd.World.Keeps.{
  Keeps-deref, Keeps, Keeps-pure, Keeps-bind, Keeps-then, Keeps-option, Keeps-read, Keeps-ask,
  Keeps-tell, bind_outcome,
}
use pufferd.World.Runs.{bind-eq, bind-ret, then_run, deref-some}
use pufferd.Program.Keeps.{create-Keeps}
use pufferd.Programs.{
  get_from_cache, undo, enter, with_made, with_kind, with_written, write_definition, with_file,
  create_steps, create_unknown, create_server,
}

-- How the creation of a server ends: without an error the list has the server at its end, otherwise it is
-- as before.
abbrev pub Entered : List ℕ → ℕ → Outcome (Option Err) → Type 0
Entered before p (ret none w) = w.all_programs ≡ before ++ p ∷ []
Entered before p (ret (some e) w) = w.all_programs ≡ before
Entered before p (panic w) = w.all_programs ≡ before

module _ (o : Outside) (before : List ℕ) (p : ℕ) where
  abbrev Same : World → Type 0
  Same w = w.all_programs ≡ before

  keep-Same : (c : Call) (w : World) → Same w → Same (record_call c w)
  keep-Same c w h = h

  Same-ask : (c : Call) → Keeps Same (ask o c)
  Same-ask c = Keeps-ask Same o (λ _. Unit {0}) (λ c w _. keep-Same c w) c tt

  Same-tell : (c : Call) → Keeps Same (tell o c)
  Same-tell c = Keeps-tell Same o (λ _. Unit {0}) (λ c w _. keep-Same c w) c tt

  Same-store : (program : Program) → Keeps Same (store p program)
  unfolding store
  Same-store program = record { at = λ w h. h }

  Same-undo : (failed : Err) → Keeps Same (undo o p (some failed))
  unfolding undo
  Same-undo failed = Keeps-bind (Keeps-deref p) λ program. Keeps-then (Same-tell _) (
      Keeps-option program.environment (Keeps-pure _)
        (λ e. Keeps-then (Same-tell _) (Keeps-pure _)))

  enter-Entered : (failed : Option Err) (w : World) → Same w → Entered before p (enter p failed w)
  unfolding enter pure ◌>>=◌ ◌>>◌
  enter-Entered (some x) w h = h
  enter-Entered none w h = ap (λ ps. ps ++ p ∷ []) h

  crash-Entered : (w : World) → Same w → Entered before p (crash w)
  unfolding crash
  crash-Entered w h = h

  with_made-Entered :
      (program : Program) (made : Result ℕ) (w : World)
      → Same w
      → Entered before p (with_made o p program made w)
  unfolding with_made ◌>>◌
  with_made-Entered program (err x) =
      bind_outcome Same (Entered before p) _ _ (Same-store _)
        (λ _.
          bind_outcome Same (Entered before p) _ _ (Same-undo x) (λ _. crash-Entered) (λ v h. h))
        (λ v h. h)
  with_made-Entered program (ok e) =
      bind_outcome Same (Entered before p) _ _ (Same-store _)
        (λ _.
          bind_outcome Same (Entered before p) _ _ (create-Keeps o keep-Same _) enter-Entered
            (λ v h. h))
        (λ v h. h)

  with_kind-Entered :
      (program : Program) (kind : Result String) (w : World)
      → Same w
      → Entered before p (with_kind o p program kind w)
  unfolding with_kind pure
  with_kind-Entered program (err x) w h = h
  with_kind-Entered program (ok kind) w h =
      bind_outcome Same (Entered before p) _ _ (Keeps-read _) (with_made-Entered program) (λ v h. h)
        w h

  with_written-Entered :
      (program : Program) (failed : Option Err) (w : World)
      → Same w
      → Entered before p (with_written o p program failed w)
  unfolding with_written pure
  with_written-Entered program (some x) w h = h
  with_written-Entered program none w h = with_kind-Entered program _ w h

  write_definition-Keeps :
      (program : Program) (source : Result String) → Keeps Same (write_definition o program source)
  unfolding write_definition
  write_definition-Keeps program (err x) = Keeps-pure _
  write_definition-Keeps program (ok source) = Same-ask _

  with_file-Entered :
      (program : Program) (failed : Option Err) (w : World)
      → Same w
      → Entered before p (with_file o p program failed w)
  unfolding with_file pure
  with_file-Entered program (some x) w h = h
  with_file-Entered program none w h =
      bind_outcome Same (Entered before p) _ _ (write_definition-Keeps program _)
        (with_written-Entered program) (λ v h. h) w h

  create_steps-Entered :
      (program : Program) (w : World) → Same w → Entered before p (create_steps o p program w)
  unfolding create_steps
  create_steps-Entered program =
      bind_outcome Same (Entered before p) _ _ (Same-ask _) (with_file-Entered program) (λ v h. h)

  pure-Entered : (failed : Err) (w : World) → Same w → Entered before p (pure (some failed) w)
  unfolding pure
  pure-Entered failed w h = h

  kept-Entered :
      (w : World) → w.all_programs ≡ before ++ p ∷ [] → Entered before p (undo o p none w)
  unfolding undo pure
  kept-Entered w h = h

  -- Undoing gives the error back or panics.
  undo-Entered : (failed : Err) (w : World) → Same w → Entered before p (undo o p (some failed) w)
  unfolding undo ◌>>◌
  undo-Entered failed =
      bind_outcome Same (Entered before p) _ _ (Keeps-deref p)
        (λ program.
          bind_outcome Same (Entered before p) _ _ (Same-tell _)
            (λ _. environment_undone program.environment) (λ v h. h))
        (λ v h. h)
    where
      environment_undone :
          (x : Option ℕ) (w : World)
          → Same w
          → Entered before p (
              (elim x as (λ _. Go (Option Err)) [
                | none ↦ pure (some failed)
                | some e ↦ tell o (Call.delete e) >> pure (some failed)
              ])
                w)
      environment_undone none w h = pure-Entered failed w h
      environment_undone (some e) w h =
          bind_outcome Same (Entered before p) _ _ (Same-tell _) (λ _. pure-Entered failed)
            (λ v h. h) w h

  -- The undoing behind an outcome.
  undone :
      (r : Outcome (Option Err)) → Entered before p r → Entered before p (then_run (undo o p) r)
  unfolding pure
  undone (ret none v) h = kept-Entered v h
  undone (ret (some x) v) h = undo-Entered x v h
  undone (panic v) h = h

  create_unknown-Entered :
      (program : Program) (found : Option ℕ) (w : World)
      → Same w
      → Entered before p (create_unknown o p program found w)
  unfolding create_unknown pure
  create_unknown-Entered program (some q) w h = h
  create_unknown-Entered program none w h =
      rw (bind-eq (create_steps o p program) (undo o p) w)
        (undone _ (create_steps-Entered program w h))

-- However the creation of a server ends, the list of servers is as before, if there was an error or a
-- panic, or has exactly the new server more, at its end, if there was none.
pub create_server-Entered :
    (o : Outside) (p : ℕ) (w : World) → Entered w.all_programs p (create_server o p w)
unfolding create_server
create_server-Entered o p w =
    bind_outcome (Same o w.all_programs p) (Entered w.all_programs p) _ _ (Keeps-deref p)
      (λ program v h. create_unknown-Entered o w.all_programs p program _ v h) (λ v h. h) w refl

-- A server whose identifier a managed server already has is not created: nothing is called or changed.
pub create_server-known :
    (o : Outside) (p q : ℕ) (program : Program) (w : World)
    → get_elem? w.heap p ≡ some program
    → get_from_cache program.identifier w ≡ some q
    → create_server o p w ≡ ret (some server_already_exists) w
unfolding create_server create_unknown pure
create_server-known o p q program w there known =
    bind-ret (deref p) _ w (deref-some p w there)
    ∙ ap (λ found. create_unknown o p program found w) known
