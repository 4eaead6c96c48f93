-- ===== src/Programs/Registry/Kept.antt =====
-- Requests to the loader that add no server (programs/loader.go: `Delete`, `Reload`, `Save`; `Edit` of programs/program.go).
use pufferd.Common.{
  eq_same, eq_other, ℕ, String, Bool, List, Option, none, some, ◌≡◌, refl, ap, sym, ◌∙◌, subst,
  ◌==◌, Bool-cases, Option-cases, inl, inr,
}
use pufferd.Types.{Err, Program, Variable}
use pufferd.World.{World, Outside, Outcome, ret, panic, pure, final}
use pufferd.Programs.{find, forget, get_from_cache, delete, delete_found, edit, reload}
use pufferd.Programs.Cache.{
  Deleted, gone, failed_after, refused, panicked, delete-Deleted, find-forget_self,
  find-forget_other,
}
use pufferd.Programs.Names.{Closed, edit-Closed, reload-Closed}
use pufferd.Programs.Directory.{
  Extends, Extends-self, Extends-append, Extends-set, Extends-get, SameName, Inside-Extends,
  find-Extends, IsUnique-Extends, Inside-forget, IsUnique-forget,
}
use pufferd.Programs.Registry.{
  Request, remove, change, renew, done, failed, broken, reply_of, Map, erase, Step, deleted,
  half_deleted, not_deleted, edited, reloaded, view, IsSound,
}

pub extending : (xs : List Program) → Closed (λ w. Extends xs w.heap)
extending xs = record {
  Fits = SameName xs;
  calls = λ c w h. h;
  grows = λ program w h. Extends-append xs w.heap _ h;
  known = λ p program w h there old at_p. Extends-get xs w.heap p h at_p there;
  same_name = λ p old new same fits x at_p. same ∙ fits x at_p;
  writes = λ p program w fits h. Extends-set xs w.heap p program fits h;
}

pub listing : (ps : List ℕ) → Closed (λ w. w.all_programs ≡ ps)
listing ps = record {
  Fits = λ _ _. Unit;
  calls = λ c w h. h;
  grows = λ program w h. h;
  known = λ p program w h there. tt;
  same_name = λ p old new same fits. tt;
  writes = λ p program w fits h. h;
}

-- A state with the same list and the same identifiers shows the same map.
module _ (w v : World) (e : Extends w.heap v.heap) (s : IsSound w) where
  view_same : v.all_programs ≡ w.all_programs → view v ≡ view w
  unfolding get_from_cache
  view_same l i id =
      (ap (find v.heap id) l ∙ find-Extends w.heap v.heap e id w.all_programs s.inside) i

  pub IsSound-same : v.all_programs ≡ w.all_programs → IsSound v
  IsSound-same l = record {
    inside = rw l (Inside-Extends w.heap v.heap e w.all_programs s.inside);
    unique = rw l (IsUnique-Extends w.heap v.heap e w.all_programs s.inside s.unique);
  }

module _ (o : Outside) (w : World) (s : IsSound w) where
  -- The first entry with an identifier is off the list.
  module _ (id : String) (v : World) (same : v.heap ≡ w.heap)
      (off : v.all_programs ≡ forget w.heap id w.all_programs) where
    view_erased_at : (j : String) → view v j ≡ erase id (view w) j
    unfolding get_from_cache
    view_erased_at j = elim (Bool-cases (id == j)) [
      | inl same_id ↦
          rw (same, off, same_id, sym (eq_same id j same_id))
            (find-forget_self w.heap id w.all_programs s.unique)
      | inr other ↦
          rw (same, off, other) (find-forget_other w.heap id j w.all_programs (eq_other id j other))
    ]

    view_erased : view v ≡ erase id (view w)
    view_erased i j = view_erased_at j i

    IsSound-erased : IsSound v
    IsSound-erased = record {
      inside = rw (same, off) (Inside-forget w.heap id w.all_programs s.inside);
      unique = rw (same, off) (IsUnique-forget w.heap id w.all_programs s.unique);
    }

  -- What is to be shown of a request.
  abbrev pub Refines : Request → Outcome (Option Err) → Type 0
  Refines r x = IsSound (final x) × Step (view w) r (reply_of x) (view (final x))

  -- A request that leaves the map as it is.
  pub as_before :
      (r : Request) (x : Outcome (Option Err))
      → ((f : Map) → Step f r (reply_of x) f)
      → Extends w.heap (final x).heap
      → (final x).all_programs ≡ w.all_programs
      → Refines r x
  as_before r x step e l = (
    IsSound-same w (final x) e s l,
    subst (λ g. Step (view w) r (reply_of x) g) (sym (view_same w (final x) e s l)) (step (view w)),
  )

  same_heap : (v : World) → v.heap ≡ w.heap → Extends w.heap v.heap
  same_heap v h = subst (λ ys. Extends w.heap ys) (sym h) (Extends-self w.heap)

  removed :
      (id : String) (x : Outcome (Option Err))
      → Deleted w.heap id w.all_programs x
      → Refines (remove id) x
  removed id x (gone {w = v} h l) = (
    IsSound-erased id v h l,
    subst (λ g. Step (view w) (remove id) done g) (sym (view_erased id v h l)) (deleted id),
  )
  removed id x (failed_after {w = v} e h l) = (
    IsSound-erased id v h l,
    subst (λ g. Step (view w) (remove id) failed g) (sym (view_erased id v h l)) (half_deleted id),
  )
  removed id x (refused {w = v} e h l) =
      as_before (remove id) (ret (some e) v) (λ f. not_deleted id failed (λ q. cc)) (same_heap v h)
        l
  removed id x (panicked {w = v} h l) =
      as_before (remove id) (panic v) (λ f. not_deleted id broken (λ q. cc)) (same_heap v h) l

  nothing_erased : (id : String) → get_from_cache id w ≡ none → view w ≡ erase id (view w)
  nothing_erased id absent i j = at_id i
    where
      at_id : view w j ≡ erase id (view w) j
      at_id = elim (Bool-cases (id == j)) [
        | inl same_id ↦ rw (same_id, sym (eq_same id j same_id)) absent
        | inr other ↦ rw other refl
      ]

  pub remove-Refines : (id : String) → Refines (remove id) (delete o id w)
  unfolding delete delete_found pure
  remove-Refines id = elim (Option-cases (get_from_cache id w)) [
    | inl absent ↦ rw (absent) (
      s,
      subst (λ g. Step (view w) (remove id) done g) (sym (nothing_erased id absent)) (deleted id),
    )
    | inr (p, cached) ↦ removed id (delete o id w) (delete-Deleted o id p w cached)
  ]

  pub change-Refines :
      (p : ℕ) (edits : List (String × Variable)) (b : Bool)
      → Refines (change p edits b) (edit o p edits b w)
  change-Refines p edits b =
      as_before (change p edits b) (edit o p edits b w) (λ f. edited p edits b _)
        ((edit-Closed (extending w.heap) o p edits b).at w (Extends-self w.heap))
        ((edit-Closed (listing w.all_programs) o p edits b).at w refl)

  pub renew-Refines : (id : String) → Refines (renew id) (reload o id w)
  renew-Refines id =
      as_before (renew id) (reload o id w) (λ f. reloaded id _)
        ((reload-Closed (extending w.heap) o id).at w (Extends-self w.heap))
        ((reload-Closed (listing w.all_programs) o id).at w refl)
