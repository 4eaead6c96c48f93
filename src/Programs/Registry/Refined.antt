-- ===== src/Programs/Registry/Refined.antt =====
-- Sequences of requests to the loader (programs/loader.go).
use pufferd.Common.{List, [], ◌∷◌}
use pufferd.World.{World, Outside, final}
use pufferd.Programs.Registry.Kept.{Refines, remove-Refines, change-Refines, renew-Refines}
use pufferd.Programs.Registry.Added.{add-Refines}
use pufferd.Programs.Registry.{
  Request, add, remove, change, renew, act, state_after, history, Steps, end, behind, view, IsSound,
}

pub act-Refines :
    (o : Outside) (r : Request) (w : World) (s : IsSound w) → Refines o w s r (act o r w)
act-Refines o (add program) w s = add-Refines o w s program
act-Refines o (remove id) w s = remove-Refines o w s id
act-Refines o (change p edits b) w s = change-Refines o w s p edits b
act-Refines o (renew id) w s = renew-Refines o w s id

-- The loader refines a finite map from identifiers to objects: over any creations, deletions, edits and
-- reloads, the identifiers that it finds, and the objects that it finds for them, change by steps of the
-- map that fit the answers, and no two listed servers have the same identifier. A creation that is
-- answered without an error has added a new object under an identifier that was free; a deletion without
-- an error has taken its identifier off; a creation with an error or a panic, an edit and a reload leave
-- the map as it was; only a deletion with an error has either deleted or not.
pub history-Refines :
    (o : Outside) (rs : List Request) (w : World)
    → IsSound w
    → IsSound (state_after o rs w) × Steps (view w) (history o rs w) (view (state_after o rs w))
history-Refines o [] w s = (s, end (view w))
history-Refines o (r ∷ rs) w s =
    let (sound, step) = act-Refines o r w s in
    let (sound_later, steps) = history-Refines o rs (final (act o r w)) sound in
    (sound_later, behind step steps)
