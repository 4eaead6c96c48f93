-- ===== src/Programs/Registry/Added.antt =====
-- A request to the loader for a new server (programs/loader.go, `Create`).
use pufferd.Common.{
  eq_same, ℕ, ◌<◌, String, Bool, List, [], ◌∷◌, ◌++◌, true, false, Option, none, some,
  if◌then◌else◌, ◌≡◌, refl, arith, ap, ap₂, sym, ◌∙◌, subst, ◌==◌, get_elem?, length, length-append,
  All-append, Option-cases, inl, inr,
}
use pufferd.Types.{Err, server_already_exists, Program}
use pufferd.World.{World, Outside, Outcome, ret, panic, pure, ◌>>=◌, ◌>>◌, final, alloc}
use pufferd.World.Keeps.{Keeps}
use pufferd.Programs.{find, get_from_cache, create_server, enter}
use pufferd.Programs.Names.{create_server-Closed}
use pufferd.Programs.Created.{Entered, create_server-Entered, create_server-known}
use pufferd.Programs.Directory.{
  or_else, Extends, Extends-self, Extends-append, Inside, Inside-Extends, find-Extends,
  IsUnique-Extends, IsUnique-append, find-append, find-Inside,
}
use pufferd.Programs.Registry.Kept.{extending, Refines, as_before}
use pufferd.Programs.Registry.{
  add, act, done, failed, broken, put, Step, added, not_added, view, IsSound,
}

pub enter-Extends :
    (xs : List Program) (p : ℕ) (failed : Option Err)
    → Keeps (λ w. Extends xs w.heap) (enter p failed)
unfolding enter ◌>>◌ ◌>>=◌ pure
enter-Extends xs p none = record { at = λ w h. h }
enter-Extends xs p (some x) = record { at = λ w h. h }

get_elem?-end : (xs : List Program) (x : Program) → get_elem? (xs ++ x ∷ []) (length xs) ≡ some x
get_elem?-end [] x = refl
get_elem?-end (y ∷ xs) x = get_elem?-end xs x

chosen :
    (x : Option ℕ) (b : Bool) (q : ℕ)
    → (b ≡ true → x ≡ none)
    → or_else x (if b then some q else none) ≡ (if b then some q else x)
chosen none true q h = refl
chosen none false q h = refl
chosen (some p) true q h = absurd (cc (h refl))
chosen (some p) false q h = refl

-- A new object, and what becomes of the state behind it.
module _ (o : Outside) (w : World) (s : IsSound w) (program : Program) where
  abbrev pub fresh : World
  fresh = record w { heap = w.heap ++ program ∷ [] }

  abbrev pub pointer : ℕ
  pointer = length w.heap

  grown : Extends w.heap fresh.heap
  grown = Extends-append w.heap w.heap _ (Extends-self w.heap)

  pointer-Inside : pointer < length fresh.heap
  pointer-Inside = omega (arith, length-append w.heap (program ∷ []))

  module _ (u : World) (e : Extends fresh.heap u.heap)
      (free : get_from_cache program.identifier w ≡ none)
      (l : u.all_programs ≡ w.all_programs ++ pointer ∷ []) where
    Inside-added : Inside fresh.heap (w.all_programs ++ pointer ∷ [])
    Inside-added =
        All-append _ w.all_programs (pointer ∷ [])
          (Inside-Extends w.heap fresh.heap grown w.all_programs s.inside) (pointer-Inside, tt)

    free_there : find fresh.heap program.identifier w.all_programs ≡ none
    unfolding get_from_cache
    free_there =
        find-Extends w.heap fresh.heap grown program.identifier w.all_programs s.inside ∙ free

    pub IsSound-added : IsSound u
    IsSound-added = record {
      inside = rw l (Inside-Extends fresh.heap u.heap e _ Inside-added);
      unique = rw l (
          IsUnique-Extends fresh.heap u.heap e _ Inside-added (
            IsUnique-append fresh.heap w.all_programs pointer program (get_elem?-end w.heap program)
              free_there
              (IsUnique-Extends w.heap fresh.heap grown w.all_programs s.inside s.unique)));
    }

    single :
        (j : String)
        → find fresh.heap j (pointer ∷ [])
          ≡ (if program.identifier == j then some pointer else none)
    unfolding find
    single j = rw (get_elem?-end w.heap program) refl

    pub view_added_at : (j : String) → view u j ≡ put program.identifier pointer (view w) j
    unfolding get_from_cache
    view_added_at j =
        ap (find u.heap j) l
        ∙ find-Extends fresh.heap u.heap e j _ Inside-added
        ∙ find-append fresh.heap j w.all_programs pointer
        ∙ ap₂ (λ x y. or_else x y) (find-Extends w.heap fresh.heap grown j w.all_programs s.inside)
            (single j)
        ∙ chosen (view w j) (program.identifier == j) pointer
            (λ same. ap (view w) (sym (eq_same program.identifier j same)) ∙ free)

    step_added : Step (view w) (add program) done (view u)
    unfolding get_from_cache
    step_added =
        subst (λ g. Step (view w) (add program) done g) (sym (λ i j. view_added_at j i))
          (added program pointer free
            (λ j same. omega (arith, find-Inside w.heap j w.all_programs s.inside same)))

  added_or_not :
      (x : Outcome (Option Err))
      → Extends w.heap (final x).heap
      → Extends fresh.heap (final x).heap
      → get_from_cache program.identifier w ≡ none
      → Entered w.all_programs pointer x
      → Refines o w s (add program) x
  added_or_not (ret none u) e e2 free l = (IsSound-added u e2 free l, step_added u e2 free l)
  added_or_not (ret (some x) u) e e2 free l =
      as_before o w s (add program) (ret (some x) u) (λ f. not_added program failed (λ q. cc)) e l
  added_or_not (panic u) e e2 free l =
      as_before o w s (add program) (panic u) (λ f. not_added program broken (λ q. cc)) e l

  pub add-Refines : Refines o w s (add program) (act o (add program) w)
  unfolding alloc ◌>>=◌ get_from_cache
  add-Refines = elim (Option-cases (get_from_cache program.identifier w)) [
    | inl free ↦
        added_or_not (create_server o pointer fresh)
          ((create_server-Closed (extending w.heap) o (enter-Extends w.heap) pointer).at fresh
            grown)
          ((create_server-Closed (extending fresh.heap) o (enter-Extends fresh.heap) pointer).at
            fresh (Extends-self fresh.heap))
          free (create_server-Entered o pointer fresh)
    | inr (q, taken) ↦
        rw
          (create_server-known o pointer q program fresh (get_elem?-end w.heap program) (
            find-Extends w.heap fresh.heap grown program.identifier w.all_programs s.inside
            ∙ taken))
          (as_before o w s (add program) (ret (some server_already_exists) fresh)
            (λ f. not_added program failed (λ q. cc)) grown refl)
  ]
