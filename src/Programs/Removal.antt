-- ===== src/Programs/Removal.antt =====
-- What `Delete` takes off the list of known servers (programs/loader.go).
use pufferd.Common.{
  ℕ, String, List, [], ◌∷◌, ◌++◌, true, false, Option, none, some, ◌≡◌, refl, sym, subst, arith, ap,
  Bool-cases, inl, inr, get_elem?, eq_iff,
}
use pufferd.Types.{Err, Program}
use pufferd.World.{World, Outside, Outcome, ret, panic}
use pufferd.Programs.{find, forget, has_id, get_from_cache, delete}
use pufferd.Programs.Cache.{Absent, Deleted, gone, failed_after, refused, panicked, delete-Deleted}

-- A list without one entry of another, which is the first of all with the identifier.
pub record IsWithout (heap : List Program) (id : String) (p : ℕ) (before after : List ℕ)
    : Type 0 where
  pub front : List ℕ
  pub back : List ℕ
  pub with_entry : before ≡ front ++ (p ∷ back)
  pub without_entry : after ≡ front ++ back
  pub program : Program
  pub there : get_elem? heap p ≡ some program
  pub named : program.identifier ≡ id
  pub is_first : Absent heap id front

has_id-named :
    (id : String) (x : Option Program)
    → has_id id x ≡ true
    → (program : Program) × (x ≡ some program) × (program.identifier ≡ id)
has_id-named id none h = cc
has_id-named id (some program) h = (program, refl, ground (arith, eq_iff program.identifier id))

IsWithout-later :
    (heap : List Program) (id : String) (q : ℕ) {p : ℕ} {before after : List ℕ}
    → has_id id (get_elem? heap q) ≡ false
    → IsWithout heap id p before after
    → IsWithout heap id p (q ∷ before) (q ∷ after)
IsWithout-later heap id q miss h = record {
  front = q ∷ h.front;
  back = h.back;
  with_entry = ap (λ ps. q ∷ ps) h.with_entry;
  without_entry = ap (λ ps. q ∷ ps) h.without_entry;
  program = h.program;
  there = h.there;
  named = h.named;
  is_first = (miss, h.is_first);
}

IsWithout-here :
    (heap : List Program) (id : String) (q p : ℕ) (ps : List ℕ)
    → has_id id (get_elem? heap q) ≡ true
    → q ≡ p
    → IsWithout heap id p (q ∷ ps) ps
IsWithout-here heap id q p ps hit same =
    let (program, there, named) = has_id-named id (get_elem? heap q) hit in
    record {
      front = [];
      back = ps;
      with_entry = ap (λ x. x ∷ ps) same;
      without_entry = refl;
      program = program;
      there = subst (λ x. get_elem? heap x ≡ some program) same there;
      named = named;
      is_first = tt;
    }

find-forget :
    (heap : List Program) (id : String) (ps : List ℕ) (p : ℕ)
    → find heap id ps ≡ some p
    → IsWithout heap id p ps (forget heap id ps)
unfolding find forget
find-forget heap id [] p h = cc
find-forget heap id (q ∷ ps) p h = elim (Bool-cases (has_id id (get_elem? heap q))) [
  | inl hit ↦ rw hit (IsWithout-here heap id q p ps hit (ground (arith, h, hit)))
  | inr miss ↦
      rw miss (IsWithout-later heap id q miss (find-forget heap id ps p (ground (arith, h, miss))))
]

-- How a deletion ends, by the server's pointer `p`.
pub data Removed (heap : List Program) (id : String) (p : ℕ) (before : List ℕ)
    : Outcome (Option Err) → Type 0 where
  deleted :
      {v : World}
      → v.heap ≡ heap
      → IsWithout heap id p before v.all_programs
      → Removed heap id p before (ret none v)
  file_left :
      {v : World} (e : Err)
      → v.heap ≡ heap
      → IsWithout heap id p before v.all_programs
      → Removed heap id p before (ret (some e) v)
  kept :
      {v : World} (e : Err)
      → v.heap ≡ heap
      → v.all_programs ≡ before
      → Removed heap id p before (ret (some e) v)
  broken :
      {v : World} → v.heap ≡ heap → v.all_programs ≡ before → Removed heap id p before (panic v)

Deleted-Removed :
    (heap : List Program) (id : String) (p : ℕ) (before : List ℕ) (r : Outcome (Option Err))
    → find heap id before ≡ some p
    → Deleted heap id before r
    → Removed heap id p before r
Deleted-Removed heap id p before _ h (gone same off) =
    deleted same (subst (IsWithout heap id p before) (sym off) (find-forget heap id before p h))
Deleted-Removed heap id p before _ h (failed_after e same off) =
    file_left e same (subst (IsWithout heap id p before) (sym off) (find-forget heap id before p h))
Deleted-Removed heap id p before _ h (refused e same on) = kept e same on
Deleted-Removed heap id p before _ h (panicked same on) = broken same on

-- However the deletion of a known server ends, the list of servers ends in one of two states: it is as before,
-- or it is the list before without one entry, which is that of the server, the first of the list whose program
-- has the identifier; every other entry is still there, in its order. Without an error the entry is off;
-- with one it may be on or off; after a panic the list is as before; and no program is changed.
pub delete-Removed :
    (o : Outside) (id : String) (p : ℕ) (w : World)
    → get_from_cache id w ≡ some p
    → Removed w.heap id p w.all_programs (delete o id w)
unfolding get_from_cache
delete-Removed o id p w cached =
    Deleted-Removed w.heap id p w.all_programs (delete o id w) cached
      (delete-Deleted o id p w cached)
