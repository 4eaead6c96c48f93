-- ===== src/Programs/Edited.antt =====
-- What `Edit` makes of a server, the nil map included (programs/program.go).
use pufferd.Common.{
  ℕ, String, Bool, List, [], ◌∷◌, ◌++◌, true, false, Option, some, ◌&&◌, ◌||◌, ◌≡◌, ◌⊎◌, inl, inr,
  refl, ap, arith, Bool-cases, All, lookup, get_elem?, set,
}
use pufferd.Types.{Err, Program, Variable}
use pufferd.World.{World, Outside, Outcome, panic, stepping}
use pufferd.Program.{writes_any, edit_map, edit_variables}
use pufferd.Program.Edit.{edit_at, lookup-edit_variables}
use pufferd.Programs.{edit, save}

-- An edit that a map without its key takes.
abbrev pub IsWrite : Bool → String × Variable → Type 0
IsWrite override_user (k, v) = v.user_editable || override_user ≡ true

abbrev pub IsSkipped : Bool → String × Variable → Type 0
IsSkipped override_user (k, v) = v.user_editable || override_user ≡ false

-- An edit among others.
pub record OneWrites (override_user : Bool) (edits : List (String × Variable)) : Type 0 where
  pub front : List (String × Variable)
  pub written : String × Variable
  pub back : List (String × Variable)
  pub splits : edits ≡ front ++ (written ∷ back)
  pub is_write : IsWrite override_user written

writes_any-one :
    (override_user : Bool) (edits : List (String × Variable))
    → writes_any override_user edits ≡ true
    → OneWrites override_user edits
unfolding writes_any
writes_any-one override_user [] h = cc
writes_any-one override_user ((k, v) ∷ edits) h =
    elim (Bool-cases (v.user_editable || override_user)) [
      | inl write ↦ record {
        front = [];
        written = (k, v);
        back = edits;
        splits = refl;
        is_write = write;
      }
      | inr skipped ↦
          let later = writes_any-one override_user edits (ground (arith, h, skipped)) in
          record {
            front = (k, v) ∷ later.front;
            written = later.written;
            back = later.back;
            splits = ap (λ rest. (k, v) ∷ rest) later.splits;
            is_write = later.is_write;
          }
    ]

writes_any-none :
    (override_user : Bool) (edits : List (String × Variable))
    → writes_any override_user edits ≡ false
    → All (IsSkipped override_user) edits
unfolding writes_any
writes_any-none override_user [] h = tt
writes_any-none override_user ((k, v) ∷ edits) h =
    (ground (arith, h), writes_any-none override_user edits (ground (arith, h)))

-- How an edit of the server at `p` ends.
pub data Edited (o : Outside) (p : ℕ) (program : Program) (override_user : Bool)
    (edits : List (String × Variable)) (w : World) (r : Outcome (Option Err)) : Type 0 where
  wrote_nil :
      program.nil_variables ≡ true
      → OneWrites override_user edits
      → r ≡ panic w
      → Edited o p program override_user edits w r
  settled :
      (variables : List (String × Variable))
      → (program.nil_variables ≡ false) ⊎ All (IsSkipped override_user) edits
      → ((k : String)
          → lookup k variables ≡ edit_at override_user k edits (lookup k program.variables))
      → r
        ≡ save o program.identifier
            (record w { heap = set w.heap p (record program { variables = variables }) })
      → Edited o p program override_user edits w r

-- An edit of a server that is there ends in one of two ways. If the server's map of variables is nil and there
-- is an entry among the edits that is marked as editable or made with the override, the edit panics and nothing is
-- changed. Else the server gets variables in which every key's entry is what the edits of that key make of its
-- old entry, in their order, so that no edit touches another key; nothing else of it is changed, and it is saved with
-- them; and then the map was not nil, or no entry is marked as editable or made with the override.
pub edit-Edited :
    (o : Outside) (p : ℕ) (edits : List (String × Variable)) (override_user : Bool) (w : World)
    (program : Program)
    → get_elem? w.heap p ≡ some program
    → Edited o p program override_user edits w (edit o p edits override_user w)
unfolding edit edit_map stepping
edit-Edited o p edits override_user w program there =
    elim (Bool-cases (program.nil_variables && writes_any override_user edits)) [
      | inl fails ↦
          wrote_nil (ground (arith, fails))
            (writes_any-one override_user edits (ground (arith, fails)))
            (ground (arith, there, fails))
      | inr works ↦
          settled (edit_variables override_user edits program.variables)
            (elim (Bool-cases program.nil_variables) [
              | inl is_nil ↦
                  inr (writes_any-none override_user edits (ground (arith, works, is_nil)))
              | inr is_map ↦ inl is_map
            ])
            (λ k. lookup-edit_variables override_user k edits program.variables)
            (ground (arith, there, works))
    ]
