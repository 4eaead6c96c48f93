-- ===== src/Programs/Names.antt =====
-- The identifiers of servers under the operations of the loader (programs/loader.go: `Create`, `Edit`'s
-- `Save`, `Reload`), which write to objects that are there and make new ones.
use pufferd.Common.{
  ℕ, String, Bool, List, [], ◌∷◌, ◌++◌, Option, none, some, ◌≡◌, refl, get_elem?, set, inl, inr,
  Option-cases,
}
use pufferd.Types.{Result-cases, Err, Result, ok, err, Program, Variable}
use pufferd.World.{
  ask_reply, Call, World, Outside, Outcome, ret, panic, Go, ◌>>=◌, final, record_call, ask, tell,
  deref, store, alloc,
}
use pufferd.World.Keeps.{
  Keeps, Keeps-pure, Keeps-crash, Keeps-bind, Keeps-then, Keeps-if, Keeps-option, Keeps-read,
  Keeps-ask, Keeps-result, Keeps-tell, Keeps-need,
}
use pufferd.Program.{edit_map, create_program, copy_from}
use pufferd.Program.Keeps.{create-Keeps}
use pufferd.Programs.{
  definition_path, get, get_from_cache, load_from_data, load_decoded, load, save, edit, reload,
  undo, enter, with_made, with_kind, with_written, write_definition, with_file, create_steps,
  create_unknown, create_server,
}

-- What outlives every call, every new object and every write to an object that keeps its identifier:
-- `Fits p program` says that the object at `p` may become `program`.
pub record Closed (I : World → Type 0) : Type 1 where
  pub Fits : ℕ → Program → Type 0
  pub calls : (c : Call) (w : World) → I w → I (record_call c w)
  pub grows : (program : Program) (w : World) → I w → I (record w { heap = w.heap ++ program ∷ [] })
  pub known :
      (p : ℕ) (program : Program) (w : World)
      → I w
      → get_elem? w.heap p ≡ some program
      → Fits p program
  pub same_name :
      (p : ℕ) (old new : Program) → new.identifier ≡ old.identifier → Fits p old → Fits p new
  pub writes :
      (p : ℕ) (program : Program) (w : World)
      → Fits p program
      → I w
      → I (record w { heap = set w.heap p program })

-- Loading reads one file and makes one object.
module _ {I : World → Type 0} (o : Outside)
    (reads : (path : String) (w : World) → I w → I (record_call (Call.read_file path) w))
    (grows : (program : Program) (w : World)
      → I w
      → I (record w { heap = w.heap ++ program ∷ [] })) where
  read : (path : String) → Keeps I (ask_reply o (Call.read_file path))
  unfolding ask_reply
  read path = record { at = reads path }

  alloc-Keeps : (program : Program) → Keeps I (alloc program)
  unfolding alloc
  alloc-Keeps program = record { at = λ w h. grows program w h }

  load_decoded-Keeps : (id : String) (r : Result Program) → Keeps I (load_decoded o id r)
  unfolding load_decoded
  load_decoded-Keeps id (err e) = record { at = λ w h. h }
  load_decoded-Keeps id (ok program) = record {
    at = λ w h. elim (Result-cases (o.environment_type program.server_environment)) [
      | inl (e, bad) ↦ rw (bad, final) h
      | inr (kind, known) ↦
          rw (known, final)
            (elim (Result-cases
              (o.new_environment w.trace kind o.server_folder id program.server_environment)) [
                | inl (e, bad) ↦ rw (bad, final) h
                | inr (e, made) ↦
                    rw (made, final) ((Keeps-bind (alloc-Keeps _) (λ p. Keeps-pure _)).at w h)
              ])
    ];
  }

  load_from_data-Keeps : (id source : String) → Keeps I (load_from_data o id source)
  unfolding load_from_data
  load_from_data-Keeps id source =
      Keeps-if (o.is_null source) Keeps-crash
        (load_decoded-Keeps id (o.decode create_program source))

  pub load-Keeps : (id : String) → Keeps I (load o id)
  unfolding load
  load-Keeps id = Keeps-bind (read (definition_path o id)) λ source.
      Keeps-if _ (Keeps-pure _)
        (Keeps-bind (load_from_data-Keeps id source.0) λ loaded. Keeps-pure _)

module _ {I : World → Type 0} (c : Closed I) (o : Outside) where
  pub ask-Closed : (x : Call) → Keeps I (ask o x)
  ask-Closed x = Keeps-ask I o (λ _. Unit {0}) (λ x w _. c.calls x w) x tt

  pub tell-Closed : (x : Call) → Keeps I (tell o x)
  tell-Closed x = Keeps-tell I o (λ _. Unit {0}) (λ x w _. c.calls x w) x tt

  pub store-Closed : (p : ℕ) (program : Program) → c.Fits p program → Keeps I (store p program)
  unfolding store
  store-Closed p program fits = record { at = λ w h. c.writes p program w fits h }

  -- Behind the reading of an object, it is known to fit.
  pub deref-Closed :
      {B : Type 0} (p : ℕ) {f : Program → Go B}
      → ((program : Program) → c.Fits p program → Keeps I (f program))
      → Keeps I (deref p >>= f)
  unfolding deref ◌>>=◌
  deref-Closed {B} p {f} go = record { at = λ w h. found w h (get_elem? w.heap p) refl }
    where
      found :
          (w : World)
          → I w
          → (x : Option Program) → get_elem? w.heap p ≡ x
          → I (
              final
                (elim (elim x as (λ _. Outcome Program) [
                  | some program ↦ ret program w
                  | none ↦ panic w
                ])
                  as (λ _. Outcome B) [ ret a v ↦ f a v | panic v ↦ panic v ]))
      found w h none e = h
      found w h (some program) e = (go program (c.known p program w h e)).at w h

  pub load-Closed : (id : String) → Keeps I (load o id)
  load-Closed = load-Keeps o (λ path w. c.calls _ w) c.grows

  pub get-Closed : (id : String) → Keeps I (get o id)
  unfolding get
  get-Closed id = record {
    at = λ w h. elim (Option-cases (get_from_cache id w)) [
      | inl unknown ↦ rw (unknown, final) ((load-Closed id).at w h)
      | inr (p, cached) ↦ rw (cached, final) h
    ];
  }

  pub save-Closed : (id : String) → Keeps I (save o id)
  unfolding save
  save-Closed id = record {
    at = λ w h. elim (Option-cases (get_from_cache id w)) [
      | inl unknown ↦ rw (unknown, final) h
      | inr (p, cached) ↦
          rw (cached, final)
            ((deref-Closed p λ program _.
                Keeps-result (o.encode program) (λ e. Keeps-pure _) (λ source. ask-Closed _)).at
              w h)
    ];
  }

  pub edit-Closed :
      (p : ℕ) (edits : List (String × Variable)) (override_user : Bool)
      → Keeps I (edit o p edits override_user)
  unfolding edit
  edit-Closed p edits override_user = deref-Closed p λ program fits.
      Keeps-option (edit_map program.nil_variables override_user edits program.variables)
        Keeps-crash
        (λ variables.
          Keeps-then (store-Closed p _ (c.same_name p program _ refl fits))
            (save-Closed program.identifier))

  pub reload-Closed : (id : String) → Keeps I (reload o id)
  unfolding reload copy_from
  reload-Closed id = record {
    at = λ w h. elim (Option-cases (get_from_cache id w)) [
      | inl unknown ↦ rw (unknown, final) h
      | inr (p, cached) ↦
          rw (cached, final)
            ((Keeps-bind (load-Closed id) λ (loaded, failed). Keeps-if _ (Keeps-pure _) (
                Keeps-bind (Keeps-need loaded) λ q. deref-Closed q λ new _.
                  deref-Closed p λ old fits.
                    Keeps-then (store-Closed p _ (c.same_name p old _ refl fits))
                      (Keeps-pure _))).at
              w h)
    ];
  }

  undo-Closed : (p : ℕ) (failed : Option Err) → Keeps I (undo o p failed)
  unfolding undo
  undo-Closed p none = Keeps-pure _
  undo-Closed p (some failed) = deref-Closed p λ program _. Keeps-then (tell-Closed _) (
      Keeps-option program.environment (Keeps-pure _)
        (λ e. Keeps-then (tell-Closed _) (Keeps-pure _)))

module _ {I : World → Type 0} (c : Closed I) (o : Outside)
    (enters : (p : ℕ) (failed : Option Err) → Keeps I (enter p failed)) where
  with_made-Closed :
      (p : ℕ) (program : Program) (made : Result ℕ)
      → c.Fits p program
      → Keeps I (with_made o p program made)
  unfolding with_made
  with_made-Closed p program (err x) fits =
      Keeps-then (store-Closed c o p _ (c.same_name p program _ refl fits))
        (Keeps-then (undo-Closed c o p _) Keeps-crash)
  with_made-Closed p program (ok e) fits =
      Keeps-then (store-Closed c o p _ (c.same_name p program _ refl fits))
        (Keeps-bind (create-Keeps o c.calls _) (enters p))

  with_file-Closed :
      (p : ℕ) (program : Program) (failed : Option Err)
      → c.Fits p program
      → Keeps I (with_file o p program failed)
  unfolding with_file write_definition with_kind with_written
  with_file-Closed p program (some x) fits = Keeps-pure _
  with_file-Closed p program none fits = Keeps-bind (written (o.encode program)) created
    where
      written : (source : Result String) → Keeps I (write_definition o program source)
      written (err x) = Keeps-pure _
      written (ok source) = ask-Closed c o _

      of_kind : (kind : Result String) → Keeps I (with_kind o p program kind)
      of_kind (err x) = Keeps-pure _
      of_kind (ok kind) = Keeps-bind (Keeps-read _) λ made. with_made-Closed p program made fits

      created : (failed : Option Err) → Keeps I (with_written o p program failed)
      created (some x) = Keeps-pure _
      created none = of_kind _

  create_unknown-Closed :
      (p : ℕ) (program : Program) (found : Option ℕ)
      → c.Fits p program
      → Keeps I (create_unknown o p program found)
  unfolding create_unknown create_steps
  create_unknown-Closed p program (some q) fits = Keeps-pure _
  create_unknown-Closed p program none fits =
      Keeps-bind (Keeps-bind (ask-Closed c o _) λ failed. with_file-Closed p program failed fits)
        (undo-Closed c o p)

  pub create_server-Closed : (p : ℕ) → Keeps I (create_server o p)
  unfolding create_server
  create_server-Closed p = deref-Closed c o p λ program fits. record {
    at = λ w h. (create_unknown-Closed p program (get_from_cache program.identifier w) fits).at w h;
  }
