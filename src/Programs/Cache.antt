-- ===== src/Programs/Cache.antt =====
-- The list of known servers under `Delete` (programs/loader.go).
use pufferd.Common.{
  ℕ, String, Bool, List, [], ◌∷◌, true, false, Option, none, some, is_some, if◌then◌else◌, ◌≡◌, ◌≢◌,
  refl, arith, ◌==◌, Option-cases, Bool-cases, inl, inr, ap, get_elem?, eq_iff, ap₂,
}
use pufferd.Types.{Err, Program}
use pufferd.World.{Call, World, Outside, Outcome, ret, panic, Go, pure, ask, ◌>>=◌, record_call}
use pufferd.World.Keeps.{Keeps, Keeps-pure, Keeps-if, bind_outcome}
use pufferd.World.Runs.{bind-ret, deref-some}
use pufferd.Program.Lifecycle.{is_running, stop, destroy}
use pufferd.Program.Keeps.{is_running-Keeps, stop-Keeps, destroy-Keeps}
use pufferd.Programs.{find, get_from_cache, has_id, forget, delete, delete_found, remove_server}

-- The identifier of a program that is there.
abbrev pub id_of : List Program → ℕ → Option String
id_of heap p = elim (get_elem? heap p) [ some program ↦ some program.identifier | none ↦ none ]

-- No later entry of the list has the identifier of an earlier one.
abbrev pub Absent : List Program → String → List ℕ → Type 0
Absent heap id [] = Unit
Absent heap id (p ∷ ps) = (has_id id (get_elem? heap p) ≡ false) × Absent heap id ps

abbrev pub IsUnique : List Program → List ℕ → Type 0
IsUnique heap [] = Unit
IsUnique heap (p ∷ ps) =
    ((id : String) → has_id id (get_elem? heap p) ≡ true → Absent heap id ps) × IsUnique heap ps

find-Absent :
    (heap : List Program) (id : String) (ps : List ℕ) → Absent heap id ps → find heap id ps ≡ none
unfolding find
find-Absent heap id [] h = refl
find-Absent heap id (p ∷ ps) (h, hs) = rw h (find-Absent heap id ps hs)

-- Forgetting a server of a list without doubles: its identifier is not found any more.
pub find-forget_self :
    (heap : List Program) (id : String) (ps : List ℕ)
    → IsUnique heap ps
    → find heap id (forget heap id ps) ≡ none
unfolding find forget
find-forget_self heap id [] u = refl
find-forget_self heap id (p ∷ ps) (first, rest) = elim (Bool-cases (has_id id (get_elem? heap p))) [
  | inl hit ↦ rw hit (find-Absent heap id ps (first id hit))
  | inr miss ↦ rw (miss, miss) (find-forget_self heap id ps rest)
]

has_id_unique :
    (id j : String) (x : Option Program) → has_id id x ≡ true → id ≢ j → has_id j x ≡ false
has_id_unique id j none h ne = cc
has_id_unique id j (some program) h ne =
    ground (arith, eq_iff program.identifier id, eq_iff program.identifier j)

-- Every other server is found as before.
pub find-forget_other :
    (heap : List Program) (id j : String) (ps : List ℕ)
    → id ≢ j
    → find heap j (forget heap id ps) ≡ find heap j ps
unfolding find forget
find-forget_other heap id j [] ne = refl
find-forget_other heap id j (p ∷ ps) ne = elim (Bool-cases (has_id id (get_elem? heap p))) [
  | inl hit ↦ rw (hit, has_id_unique id j (get_elem? heap p) hit ne) refl
  | inr miss ↦ rw (miss) (
      ap (λ r. if has_id j (get_elem? heap p) then some p else r)
        (find-forget_other heap id j ps ne))
]

-- How a deletion ends: without an error the server is off the list; with one it is still on it or,
-- where only removing its file failed, off it; and a panic leaves the list as it was.
pub data Deleted (heap : List Program) (id : String) (before : List ℕ)
    : Outcome (Option Err) → Type 0 where
  gone :
      {w : World}
      → w.heap ≡ heap
      → w.all_programs ≡ forget heap id before
      → Deleted heap id before (ret none w)
  failed_after :
      {w : World} (e : Err)
      → w.heap ≡ heap
      → w.all_programs ≡ forget heap id before
      → Deleted heap id before (ret (some e) w)
  refused :
      {w : World} (e : Err)
      → w.heap ≡ heap
      → w.all_programs ≡ before
      → Deleted heap id before (ret (some e) w)
  panicked :
      {w : World} → w.heap ≡ heap → w.all_programs ≡ before → Deleted heap id before (panic w)

record Listed (heap : List Program) (ps : List ℕ) (w : World) : Type 0 where
  same_heap : w.heap ≡ heap
  same_list : w.all_programs ≡ ps

step-Listed :
    (heap : List Program) (ps : List ℕ) (c : Call) (w : World)
    → Listed heap ps w
    → Listed heap ps (record_call c w)
step-Listed heap ps c w u = record { same_heap = u.same_heap; same_list = u.same_list }

module _ (o : Outside) (heap : List Program) (id : String) (before : List ℕ) where
  unless_failed :
      (failed : Option Err) (k : Go (Option Err)) (w : World)
      → Listed heap before w
      → Deleted heap id before (k w)
      → Deleted heap id before ((if is_some failed then pure failed else k) w)
  unfolding pure
  unless_failed none k w u d = d
  unless_failed (some e) k w u d = refused e u.same_heap u.same_list

  removed :
      (failed : Option Err) (v : World)
      → v.heap ≡ heap
      → v.all_programs ≡ forget heap id before
      → Deleted heap id before (ret failed v)
  removed none v h l = gone h l
  removed (some e) v h l = failed_after e h l

  remove_server-Deleted :
      (w : World) → Listed heap before w → Deleted heap id before (remove_server o id w)
  unfolding remove_server ask ◌>>=◌
  remove_server-Deleted w u =
      removed _ _ u.same_heap (ap₂ (λ h ps. forget h id ps) u.same_heap u.same_list)

  destroy-Deleted :
      (program : Program) (w : World)
      → Listed heap before w
      → Deleted heap id before (
          (destroy o program >>= λ destroyed.
          if is_some destroyed then pure destroyed else remove_server o id)
            w)
  destroy-Deleted program w u =
      bind_outcome (Listed heap before) (Deleted heap id before) _ _
        (destroy-Keeps o (step-Listed heap before) program)
        (λ destroyed v k. unless_failed destroyed _ v k (remove_server-Deleted v k))
        (λ v k. panicked k.same_heap k.same_list) w u

  stop_if-Keeps :
      (program : Program) (running : Bool)
      → Keeps (Listed heap before) (if running then stop o program else pure none)
  stop_if-Keeps program running =
      Keeps-if running (stop-Keeps o (step-Listed heap before) program) (Keeps-pure none)

  delete_known-Deleted :
      (program : Program) (w : World)
      → Listed heap before w
      → Deleted heap id before (
          (is_running o program >>= λ (running, failed).
          if is_some failed
          then pure failed
          else ((if running then stop o program else pure none) >>= λ stopped.
              if is_some stopped
              then pure stopped
              else (destroy o program >>= λ destroyed.
                  if is_some destroyed then pure destroyed else remove_server o id)))
            w)
  delete_known-Deleted program w u =
      bind_outcome (Listed heap before) (Deleted heap id before) _ _
        (is_running-Keeps o (step-Listed heap before) program)
        (λ asked v k. unless_failed asked.1 _ v k (
          bind_outcome (Listed heap before) (Deleted heap id before) _ _
            (stop_if-Keeps program asked.0)
            (λ stopped x m. unless_failed stopped _ x m (destroy-Deleted program x m))
            (λ x m. panicked m.same_heap m.same_list) v k))
        (λ v k. panicked k.same_heap k.same_list) w u

find-found :
    (heap : List Program) (id : String) (ps : List ℕ) {p : ℕ}
    → find heap id ps ≡ some p
    → (program : Program) × (get_elem? heap p ≡ some program)
unfolding find
find-found heap id [] h = cc
find-found heap id (q ∷ ps) {p} h = elim (Option-cases (get_elem? heap q)) [
  | inl absent ↦ find-found heap id ps (ground arith)
  | inr (program, there) ↦ elim (Bool-cases (program.identifier == id)) [
    | inl hit ↦ (program, ground arith)
    | inr miss ↦ find-found heap id ps (ground arith)
  ]
]

get_from_cache-found :
    (id : String) (w : World) {p : ℕ}
    → get_from_cache id w ≡ some p
    → (program : Program) × (get_elem? w.heap p ≡ some program)
unfolding get_from_cache
get_from_cache-found id w h = find-found w.heap id w.all_programs h

-- A deletion of a known server ends in one of these ways.
pub delete-Deleted :
    (o : Outside) (id : String) (p : ℕ) (w : World)
    → get_from_cache id w ≡ some p
    → Deleted w.heap id w.all_programs (delete o id w)
unfolding delete delete_found
delete-Deleted o id p w cached =
    let (program, there) = get_from_cache-found id w cached in
    rw cached (
      rw (bind-ret _ _ w (deref-some p w there)) (
        delete_known-Deleted o w.heap id w.all_programs program w
          (record { same_heap = refl; same_list = refl })))

Deleted-none :
    {heap : List Program} {id : String} {before : List ℕ} {r : Outcome (Option Err)} (v : World)
    → Deleted heap id before r
    → r ≡ ret none v
    → (v.heap ≡ heap) × (v.all_programs ≡ forget heap id before)
Deleted-none v (gone h l) e = ground arith
Deleted-none v (failed_after x h l) e = cc
Deleted-none v (refused x h l) e = cc
Deleted-none v (panicked h l) e = cc

-- After a deletion without an error, the identifier is not found any more, and every other one is
-- found as before, if no two known servers had the same identifier.
pub delete_ok :
    (o : Outside) (id j : String) (p : ℕ) (w v : World)
    → IsUnique w.heap w.all_programs
    → get_from_cache id w ≡ some p
    → delete o id w ≡ ret none v
    → id ≢ j
    → (get_from_cache id v ≡ none) × (get_from_cache j v ≡ get_from_cache j w)
unfolding get_from_cache
delete_ok o id j p w v unique cached ok_none ne =
    let (h, l) = Deleted-none v (delete-Deleted o id p w cached) ok_none in
    (
      rw (h, l) (find-forget_self w.heap id w.all_programs unique),
      rw (h, l) (find-forget_other w.heap id j w.all_programs ne),
    )
