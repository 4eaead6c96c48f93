-- ===== src/Programs/Registry.antt =====
-- The loader (programs/loader.go) against a finite map: any sequence of creations, deletions, edits and
-- reloads of servers, and how each is answered.
pub mod Kept
pub mod Added
pub mod Refined
use pufferd.Common.{
  ℕ, ◌≤◌, ◌<◌, String, Bool, List, [], ◌∷◌, ◌++◌, true, false, Option, none, some, if◌then◌else◌,
  ◌≡◌, ◌≢◌, refl, arith, ap, ap₂, sym, ◌∙◌, subst, ◌==◌, eq_iff, get_elem?, set, length,
  length-append, All, All-append, Bool-cases, Option-cases, inl, inr,
}
use pufferd.Types.{Err, server_already_exists, Program, Variable}
use pufferd.World.{World, Outside, Outcome, ret, panic, Go, pure, ◌>>=◌, ◌>>◌, final, alloc}
use pufferd.World.Keeps.{Keeps}
use pufferd.Programs.{
  find, forget, get_from_cache, create_server, delete, delete_found, edit, reload, enter,
}
use pufferd.Programs.Cache.{
  IsUnique, Deleted, gone, failed_after, refused, panicked, delete-Deleted, find-forget_self,
  find-forget_other,
}
use pufferd.Programs.Names.{Closed, edit-Closed, reload-Closed, create_server-Closed}
use pufferd.Programs.Created.{Entered, create_server-Entered, create_server-known}
use pufferd.Programs.Directory.{
  or_else, Extends, Extends-self, Extends-append, Extends-set, Extends-get, SameName, Inside,
  Inside-Extends, find-Extends, forget-Extends, IsUnique-Extends, Inside-forget, IsUnique-forget,
  IsUnique-append, find-append, find-Inside,
}

-- A request to the loader: `Create` of an object that the caller makes, `Delete`, `Edit` of an object and
-- `Reload`.
pub data Request : Type 0 where
  add : Program → Request
  remove : String → Request
  change : ℕ → List (String × Variable) → Bool → Request
  renew : String → Request

abbrev pub act : Outside → Request → Go (Option Err)
act o (add program) = alloc program >>= create_server o
act o (remove id) = delete o id
act o (change p edits override_user) = edit o p edits override_user
act o (renew id) = reload o id

-- How a request is answered.
pub data Reply : Type 0 where
  done failed broken : Reply

abbrev pub reply_of : Outcome (Option Err) → Reply
reply_of (ret none w) = done
reply_of (ret (some e) w) = failed
reply_of (panic w) = broken

abbrev pub state_after : Outside → List Request → World → World
state_after o [] w = w
state_after o (r ∷ rs) w = state_after o rs (final (act o r w))

-- The requests with their answers.
abbrev pub history : Outside → List Request → World → List (Request × Reply)
history o [] w = []
history o (r ∷ rs) w = (r, reply_of (act o r w)) ∷ history o rs (final (act o r w))

-- The specification: a map from identifiers to objects.
abbrev pub Map : Type 0
Map = String → Option ℕ

abbrev pub put : String → ℕ → Map → Map
put id p f j = if id == j then some p else f j

abbrev pub erase : String → Map → Map
erase id f j = if id == j then none else f j

-- What one request may do to the map, by its answer. A server is added under an identifier that was
-- free, as an object that no other identifier has; a deletion that fails has deleted or not.
pub data Step (f : Map) : Request → Reply → Map → Type 0 where
  added :
      (program : Program) (p : ℕ)
      → f program.identifier ≡ none
      → ((j : String) → f j ≢ some p)
      → Step f (add program) done (put program.identifier p f)
  not_added : (program : Program) (a : Reply) → a ≢ done → Step f (add program) a f
  deleted : (id : String) → Step f (remove id) done (erase id f)
  half_deleted : (id : String) → Step f (remove id) failed (erase id f)
  not_deleted : (id : String) (a : Reply) → a ≢ done → Step f (remove id) a f
  edited :
      (p : ℕ) (edits : List (String × Variable)) (b : Bool) (a : Reply)
      → Step f (change p edits b) a f
  reloaded : (id : String) (a : Reply) → Step f (renew id) a f

pub data Steps : Map → List (Request × Reply) → Map → Type 0 where
  end : (f : Map) → Steps f [] f
  behind :
      {f g h : Map} {r : Request} {a : Reply} {more : List (Request × Reply)}
      → Step f r a g
      → Steps g more h
      → Steps f ((r, a) ∷ more) h

abbrev pub view : World → Map
view w id = get_from_cache id w

-- Every listed pointer is to an object, and no two listed servers have the same identifier.
pub record IsSound (w : World) : Type 0 where
  pub inside : Inside w.heap w.all_programs
  pub unique : IsUnique w.heap w.all_programs
