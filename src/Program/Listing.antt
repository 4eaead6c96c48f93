-- ===== src/Program/Listing.antt =====
-- What `GetItem` lists of a folder.
use pufferd.Common.{
  ℕ, zero, suc, ◌+◌, ◌-◌, ◌≤◌, String, Bool, List, [], ◌∷◌, ◌++◌, true, false, none, some, length,
  replicate, map, get_elem?, set, ◌≡◌, refl, arith, append_assoc, ap, ap₂, ◌∙◌, length-append,
}
use pufferd.Types.{FileInfo, FileDesc, listing}
use pufferd.World.{Call, World, Outside, ret, Go, pure, crash, ◌>>=◌, record_call, ask_entries}
use pufferd.World.Runs.{bind-ret}
use pufferd.Program.Files.{blank, parent_entry, describe, fill, fresh_names, list_folder}

get_elem?-front :
    (front rest : List FileDesc) (d : FileDesc)
    → get_elem? (front ++ d ∷ rest) (length front) ≡ some d
get_elem?-front [] rest d = refl
get_elem?-front (x ∷ front) rest d = get_elem?-front front rest d

set-front :
    (front rest : List FileDesc) (d e : FileDesc)
    → set (front ++ d ∷ rest) (length front) e ≡ (front ++ e ∷ []) ++ rest
set-front [] rest d e = refl
set-front (x ∷ front) rest d e = ap (λ r. x ∷ r) (set-front front rest d e)

length_one : (front : List FileDesc) (e : FileDesc) → suc (length front) ≡ length (front ++ e ∷ [])
length_one front e = omega (arith, length-append {0} front (e ∷ []))

round :
    (front rest : List FileDesc) (infos : List FileInfo) (d e : FileDesc) (w : World)
    (rest_of : List FileDesc → ℕ → Go (List FileDesc))
    → (elim (get_elem? (front ++ d ∷ rest) (length front)) as (λ _. Go (List FileDesc)) [
      | none ↦ crash
      | some old ↦ rest_of (set (front ++ d ∷ rest) (length front) e) (suc (length front))
    ])
        w
      ≡ rest_of ((front ++ e ∷ []) ++ rest) (length (front ++ e ∷ [])) w
round front rest infos d e w rest_of =
    rw (get_elem?-front front rest d)
      (ap₂ (λ l i. rest_of l i w) (set-front front rest d e) (length_one front e))

-- The loop writes the entries behind what is in front, and leaves the rest blank.
fill-blank :
    (front : List FileDesc) (infos : List FileInfo) (n k : ℕ) (w : World)
    → n ≡ length infos + k
    → fill (front ++ replicate n blank) (length front) infos w
      ≡ ret (front ++ (map describe infos ++ replicate k blank)) w
unfolding fill pure
fill-blank front [] n k w h = ap (λ m. ret (front ++ replicate m blank) w) (omega arith)
fill-blank front (info ∷ infos) zero k w h = absurd (omega arith)
fill-blank front (info ∷ infos) (suc n) k w h =
    round front (replicate n blank) infos blank (describe info) w (λ l i. fill l i infos)
    ∙ fill-blank (front ++ describe info ∷ []) infos n k w (omega arith)
    ∙ ap (λ l. ret l w)
        (append_assoc front (describe info ∷ []) (map describe infos ++ replicate k blank))

-- The entry of the parent folder, which only the root lacks.
abbrev pub parents : Bool → List FileDesc
parents true = []
parents false = parent_entry ∷ []

fill-below :
    (infos : List FileInfo) (n k : ℕ) (w : World)
    → n ≡ length infos + k
    → fill (parent_entry ∷ replicate n blank) 1 infos w
      ≡ ret (parent_entry ∷ (map describe infos ++ replicate k blank)) w
fill-below infos n k w h = fill-blank (parent_entry ∷ []) infos n k w h

-- The entries of a folder that is read from a state, and those that are left without the links that
-- lead out of the server's folder.
abbrev pub read_entries : Outside → String → World → List FileInfo
read_entries o folder w = o.entries w.trace (Call.read_dir folder)

abbrev pub left_entries : Outside → String → String → World → List FileInfo
left_entries o folder root w =
    o.remove_invalid_symlinks (Call.read_dir folder ∷ w.trace) (read_entries o folder w) folder root

-- The list of a folder is the entry of the parent, for any folder but the root, then one entry for each
-- file that is left, in order, then a blank entry for each link that was removed. That the removal of
-- links leaves no more files than there were is a hypothesis.
pub list_folder-entries :
    (o : Outside) (folder root : String) (at_root : Bool) (w : World)
    → length (left_entries o folder root w) ≤ length (read_entries o folder w)
    → list_folder o folder root at_root w
      ≡ ret
          (
            some (
                listing (
                  parents at_root
                  ++ (map describe (left_entries o folder root w)
                      ++ replicate
                          (length (read_entries o folder w) - length (left_entries o folder root w))
                          blank))),
            none,
          )
          (record_call (Call.read_dir folder) w)
unfolding list_folder ask_entries fresh_names pure ◌>>=◌
list_folder-entries o folder root true w fewer =
    bind-ret
      (fill (replicate (length (read_entries o folder w)) blank) 0 (left_entries o folder root w))
      (λ file_names. pure (some (listing file_names), none)) (record_call (Call.read_dir folder) w)
      (fill-blank [] (left_entries o folder root w) (length (read_entries o folder w))
        (length (read_entries o folder w) - length (left_entries o folder root w))
        (record_call (Call.read_dir folder) w) (omega arith))
list_folder-entries o folder root false w fewer =
    bind-ret
      (fill (parent_entry ∷ replicate (length (read_entries o folder w)) blank) 1
        (left_entries o folder root w))
      (λ file_names. pure (some (listing file_names), none)) (record_call (Call.read_dir folder) w)
      (fill-below (left_entries o folder root w) (length (read_entries o folder w))
        (length (read_entries o folder w) - length (left_entries o folder root w))
        (record_call (Call.read_dir folder) w) (omega arith))
