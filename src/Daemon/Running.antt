-- ===== src/Daemon/Running.antt =====
-- The daemon from its start on (entry/entry.go): what the loaded servers are like, and stay like.
use pufferd.Common.{
  ℕ, ◌<◌, String, Bool, List, [], ◌∷◌, true, false, Option, is_some, if◌then◌else◌, ◌≡◌, refl, All,
  length, not, ◌&&◌, sym, subst, ◌∙◌,
}
use pufferd.Types.{Err, is_exist, is_not_exist}
use pufferd.World.{
  Call, World, Outside, Outcome, ret, panic, Go, pure, ◌>>=◌, ◌>>◌, final, stepping, record_call,
}
use pufferd.World.Runs.{bind-eq, then_run}
use pufferd.World.Keeps.{
  Keeps, Keeps-ask, bind_outcome, Keeps-pure, Keeps-bind, Keeps-then, Keeps-if, Keeps-need,
}
use pufferd.Auth.{Authority}
use pufferd.Programs.{load_from_folder, file_names, get_from_cache, find}
use pufferd.Programs.Exit.{start_via_service, init_service}
use pufferd.Programs.Names.{Closed, tell-Closed, deref-Closed}
use pufferd.Programs.Directory.{Extends-self}
use pufferd.Programs.Registry.{IsSound}
use pufferd.Programs.Registry.Kept.{extending, listing}
use pufferd.Programs.Whole.{bind_pure-final, IsWhole, IsWhole-steps, queueing}
use pufferd.Programs.Whole.Queueing.{pushed, start_via_service-heap, start_via_service-list}
use pufferd.Programs.Loaded.{HasDistinctStems, AreFree, load_all-IsSound}
use pufferd.Daemon.{greet, greet_all, boot, prepare_folder}
use pufferd.Daemon.Events.{Event, happen_all, happen_all-IsWhole}

module _ {I : World → Type 0} (c : Closed I) (o : Outside) (Pushed : ℕ → Type 0)
    (pushes : (p : ℕ) → Pushed p → (w : World) → I w → I (start_via_service p w)) where
  greet-Closed : (p : ℕ) → Pushed p → Keeps I (greet o p)
  unfolding greet
  greet-Closed p known = deref-Closed c o p λ program _. Keeps-if _ (Keeps-pure tt) (
      Keeps-bind (Keeps-need program.environment) λ e. Keeps-then (tell-Closed c o _) (
        Keeps-if _ (Keeps-pure tt)
          (Keeps-then (tell-Closed c o _) (record { at = pushes p known }))))

  greet_all-Closed : (ps : List ℕ) → All Pushed ps → Keeps I (greet_all o ps)
  unfolding greet_all
  greet_all-Closed [] h = Keeps-pure tt
  greet_all-Closed (p ∷ ps) (h, hs) = Keeps-then (greet-Closed p h) (greet_all-Closed ps hs)

greet_all-IsWhole :
    (o : Outside) (w : World) → IsWhole w → IsWhole (final (greet_all o w.all_programs w))
greet_all-IsWhole o w h =
    IsWhole-steps w _ h
      ((greet_all-Closed (extending w.heap) o (λ p. p < length w.heap)
          (λ p _ v e. rw (start_via_service-heap p v) e) w.all_programs h.sound.inside).at
        w (Extends-self w.heap))
      ((greet_all-Closed (listing w.all_programs) o (λ p. p < length w.heap)
          (λ p _ v l. start_via_service-list p v ∙ l) w.all_programs h.sound.inside).at
        w refl)
      ((greet_all-Closed (queueing (length w.heap)) o (λ p. p < length w.heap)
          (λ p lt v q. pushed (length w.heap) p lt v q) w.all_programs h.sound.inside).at
        w h.queued)

-- No two files of the folder of servers have the same name up to the extension.
abbrev pub HasDistinctFiles : Outside → Type 0
HasDistinctFiles o =
    (t : List Call) → HasDistinctStems (file_names (o.entries t (Call.read_dir o.server_folder)))

-- A daemon that has not started: no server is known.
abbrev pub IsFresh : World → Type 0
IsFresh w = (w.all_programs ≡ []) × (w.queue ≡ [])

fresh-AreFree : (w : World) → w.all_programs ≡ [] → (names : List String) → AreFree w names
unfolding get_from_cache find
fresh-AreFree w none_known [] = tt
fresh-AreFree w none_known (name ∷ names) = (rw none_known refl, fresh-AreFree w none_known names)

fresh-IsSound : (w : World) → w.all_programs ≡ [] → IsSound w
fresh-IsSound w none_known = record { inside = rw none_known tt; unique = rw none_known tt }

load_from_folder-IsSound :
    (o : Outside) (w : World)
    → HasDistinctFiles o
    → w.all_programs ≡ []
    → IsSound (final (load_from_folder o w))
unfolding load_from_folder stepping
load_from_folder-IsSound o w distinct none_known =
    load_all-IsSound o _ _ (distinct _) (fresh-AreFree _ none_known _) (fresh-IsSound _ none_known)

-- What is shown of a start that does not panic.
abbrev Ready : {A : Type 0} → Outcome A → Type 0
Ready (ret x v) = IsWhole v
Ready (panic v) = Unit

-- A part that ends in a sound state, and one that goes on from there.
Ready-behind :
    {A B : Type 0} (m : Go A) (f : A → Go B) (w : World)
    → IsSound (final (m w))
    → ((x : A) (v : World) → IsSound v → Ready (f x v))
    → Ready ((m >>= f) w)
Ready-behind m f w s next = rw (bind-eq m f w) (go (m w) s)
  where
    go : (r : Outcome _) → IsSound (final r) → Ready (then_run f r)
    go (ret x v) s = next x v s
    go (panic v) s = tt

Ready-final : {A : Type 0} (r : Outcome A) → IsWhole (final r) → Ready r
Ready-final (ret x v) h = h
Ready-final (panic v) h = tt

module _ (o : Outside) (distinct : HasDistinctFiles o) where
  call_keeps : (c : Call) (w : World) → Unit {0} → IsFresh w → IsFresh (record_call c w)
  call_keeps c w _ h = h

  prepared : (missing : Option Err) → Keeps IsFresh (prepare_folder o missing)
  unfolding prepare_folder
  prepared missing = Keeps-if _ (Keeps-pure _) (Keeps-ask IsFresh o (λ _. Unit {0}) call_keeps _ tt)

  -- Behind the loading, the queue is opened.
  opened : (v : World) → IsSound v → IsWhole (init_service v)
  unfolding init_service
  opened v s = record { sound = record { inside = s.inside; unique = s.unique }; queued = tt }

  greeted :
      (failed : Option Err) (v : World)
      → IsWhole v
      → Ready {A = Option Err × Bool} ((greet_all o v.all_programs >> pure (failed, true)) v)
  unfolding ◌>>◌
  greeted failed v h = Ready-final _ (
      subst IsWhole (sym (bind_pure-final (greet_all o v.all_programs) (λ _. (failed, true)) v))
        (greet_all-IsWhole o v h))

  boot-Ready : (w : World) → IsFresh w → Ready (boot o w)
  unfolding boot ◌>>◌ ◌>>=◌ pure
  boot-Ready w fresh =
      bind_outcome IsFresh Ready _ _ (Keeps-ask IsFresh o (λ _. Unit {0}) call_keeps _ tt)
        (λ missing.
          bind_outcome IsFresh Ready _ _ (prepared missing)
            (λ failed v h.
              ended (is_not_exist missing && is_some failed && not (is_exist failed)) failed v h)
            (λ v h. tt))
        (λ v h. tt) w fresh
    where
      loaded : (failed : Option Err) → Go (Option Err × Bool)
      loaded failed = do
        load_from_folder o
        λ w. ret tt (init_service w)
        programs ← λ w. ret (w.all_programs) w
        greet_all o programs
        pure (failed, true)

      ended :
          (b : Bool) (failed : Option Err) (v : World)
          → IsFresh v
          → Ready ((if b then pure (failed, false) else loaded failed) v)
      ended true failed v h = record { sound = fresh-IsSound v h.0; queued = rw (h.1) tt }
      ended false failed v h =
          Ready-behind (load_from_folder o) _ v (load_from_folder-IsSound o v distinct h.0)
            (λ _ u s. greeted failed (init_service u) (opened u s))

Ready-ret : {A : Type 0} (r : Outcome A) {x : A} {v : World} → Ready r → r ≡ ret x v → IsWhole v
Ready-ret r h e = subst Ready e h

-- A daemon that starts without a known server, from a folder whose files have different names up to their
-- extension, and whose start does not panic, has a well-formed set of servers and start queue from then on,
-- whatever happens to it and in any order.
pub boot-IsWhole :
    (o : Outside) (a : Authority) (es : List Event) (w v : World) (result : Option Err × Bool)
    → HasDistinctFiles o
    → IsFresh w
    → boot o w ≡ ret result v
    → IsWhole (happen_all o a es v)
boot-IsWhole o a es w v result distinct fresh started =
    happen_all-IsWhole o a es v (Ready-ret (boot o w) (boot-Ready o distinct w fresh) started)
