-- ===== src/FilePath.antt =====
-- The functions of Go's `path/filepath` that the daemon calls, on a system whose separator is `/`
-- (where `path` computes the same).
use pufferd.Common.{String, Bool, List, [], ◌∷◌, if◌then◌else◌, ◌==◌, ◌||◌}
use pufferd.Text.{◌<>◌, split, join_with, has_prefix}
use mathlib.Core.List.{reverse}

-- What `..` does to the components kept so far, the last one first.
up : Bool → List String → List String
up rooted [] = if rooted then [] else ".." ∷ []
up rooted (top ∷ rest) = if top == ".." then ".." ∷ top ∷ rest else rest

-- One round of `filepath.Clean`.
clean_step : Bool → List String → String → List String
clean_step rooted stack part =
    if part == "" || part == "."
    then stack
    else if part == ".."
    then up rooted stack
    else part ∷ stack

clean_parts : Bool → List String → List String → List String
clean_parts rooted stack [] = reverse stack
clean_parts rooted stack (part ∷ parts) = clean_parts rooted (clean_step rooted stack part) parts

or_dot : String → String
or_dot s = if s == "" then "." else s

unfoldable pub clean : String → String
unfolding clean_parts clean_step up or_dot split join_with has_prefix
clean path =
    let rooted = has_prefix path "/" in
    let kept = join_with "/" (clean_parts rooted [] (split path b'/')) in
    if rooted then "/" <> kept else or_dot kept

-- `filepath.Join` of two elements: an empty one is dropped.
unfoldable pub join : String → String → String
unfolding clean
join a b =
    if a == ""
    then (if b == "" then "" else clean b)
    else if b == ""
    then clean a
    else clean (a <> "/" <> b)

-- The components before the last, and the last.
split_last : List String → List String × String
split_last [] = ([], "")
split_last (p ∷ []) = ([], p)
split_last (p ∷ q ∷ ps) = let (front, back) = split_last (q ∷ ps) in (p ∷ front, back)

-- The text up to the last slash, with it.
folder_of : List String → String
folder_of [] = ""
folder_of (p ∷ ps) = join_with "/" (p ∷ ps) <> "/"

unfoldable pub dir : String → String
unfolding clean split_last folder_of split join_with
dir path = clean (folder_of (split_last (split path b'/')).0)

-- The second result of `filepath.Split`.
unfoldable pub file_part : String → String
unfolding split_last split
file_part path = (split_last (split path b'/')).1

-- `filepath.Ext` of a file name.
unfoldable pub ext : String → String
unfolding split_last split
ext name =
    let (front, back) = split_last (split name b'.') in
    elim front [ [] ↦ "" | p ∷ ps ↦ "." <> back ]

-- `strings.TrimSuffix(name, filepath.Ext(name))`.
unfoldable pub trim_ext : String → String
unfolding split_last split join_with
trim_ext name =
    let (front, back) = split_last (split name b'.') in
    elim front [ [] ↦ name | p ∷ ps ↦ join_with "." (p ∷ ps) ]

-- The last component that is not empty, where slashes end a path.
last_name : List String → String
last_name [] = "/"
last_name (p ∷ ps) =
    let rest = last_name ps in if rest == "/" then (if p == "" then "/" else p) else rest

-- `path.Base`.
unfoldable pub base : String → String
unfolding last_name split
base path = if path == "" then "." else last_name (split path b'/')
