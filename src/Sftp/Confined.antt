-- ===== src/Sftp/Confined.antt =====
-- Which paths an SFTP session can touch.
use pufferd.Common.{
  String, List, [], ◌∷◌, ◌++◌, true, false, Option, none, some, ◌==◌, ◌||◌, ◌≡◌, refl, arith,
  Bool-cases, inl, inr, ◌⊎◌, All, ap,
}
use pufferd.Types.{Err, Result, ok, err, other}
use pufferd.Text.{◌<>◌}
use pufferd.FilePath.{dir}
use pufferd.World.{Call, World, Outside, ret, Go, pure, ◌>>=◌, final, record_call, ask, stepping}
use pufferd.World.Runs.{bind-ret}
use pufferd.World.Keeps.{Keeps, Keeps-pure, Keeps-bind, Keeps-if, Keeps-option, Keeps-ask}
use pufferd.Sftp.{
  Request, new_path, validate, validate_target, run_cmd, file_cmd, open_or_create, get_file,
  file_write, mask_error,
}

-- The paths of a call that changes the file system.
abbrev pub changed_paths : Call → List String
changed_paths (Call.rename a b) = a ∷ b ∷ []
changed_paths (Call.remove_all a) = a ∷ []
changed_paths (Call.remove a) = a ∷ []
changed_paths (Call.mkdir a) = a ∷ []
changed_paths (Call.mkdir_all a) = a ∷ []
changed_paths (Call.create_file a) = a ∷ []
changed_paths (Call.open_flags a creating) = a ∷ []
changed_paths _ = []

-- The calls that a run has added to the trace all change approved paths only.
pub record Confined (P : String → Type 0) (before after : List Call) : Type 0 where
  pub added : List Call
  pub grows : after ≡ added ++ before
  pub within : All (λ c. All P (changed_paths c)) added

-- A path that the access check admits below the prefix, at a point of the history.
abbrev pub Approved : Outside → List Call → String → String → Type 0
Approved o t prefix path = o.ensure_access t path prefix ≡ true

module _ (o : Outside) (P : String → Type 0) (before : List Call) where
  pub step-Confined :
      (c : Call) (w : World)
      → All P (changed_paths c)
      → Confined P before w.trace
      → Confined P before (record_call c w).trace
  step-Confined c w a h = record {
    added = c ∷ h.added;
    grows = ap (λ t. c ∷ t) h.grows;
    within = (a, h.within);
  }

  pub act : (c : Call) → All P (changed_paths c) → Keeps (λ w. Confined P before w.trace) (ask o c)
  act = Keeps-ask _ o (λ c. All P (changed_paths c)) step-Confined

  run_cmd-Keeps :
      (method source target : String)
      → P source
      → P target
      → Keeps (λ w. Confined P before w.trace) (run_cmd o method source target)
  unfolding run_cmd
  run_cmd-Keeps method source target hs ht =
      Keeps-if (method == "SetStat" || method == "Setstat") (Keeps-pure none) (
        Keeps-if (method == "Rename") (act (Call.rename source target) (hs, (ht, tt))) (
          Keeps-if (method == "Rmdir") (act (Call.remove_all source) (hs, tt)) (
            Keeps-if (method == "Mkdir") (act (Call.mkdir source) (hs, tt)) (
              Keeps-if (method == "Symlink") (Keeps-pure none) (
                Keeps-if (method == "Remove") (act (Call.remove source) (hs, tt))
                  (Keeps-pure (some (other ("Unknown request method: " <> method)))))))))

  open_or_create-Keeps :
      (prefix path : String)
      → P path
      → P (dir path)
      → Keeps (λ w. Confined P before w.trace) (open_or_create o prefix path)
  unfolding open_or_create
  open_or_create-Keeps prefix path hp hd = Keeps-bind (act (Call.stat path) tt) λ missing.
      Keeps-if _
        (Keeps-bind (act (Call.mkdir_all (dir path)) (hd, tt)) λ unmade.
          Keeps-option unmade
            (Keeps-bind (act (Call.create_file path) (hp, tt)) λ failed. Keeps-pure _)
            (λ e. Keeps-pure _))
        (Keeps-if _ (Keeps-pure _)
          (Keeps-bind (act (Call.open_flags path true) (hp, tt)) λ failed. Keeps-pure _))

pub nothing_added : {P : String → Type 0} (t : List Call) → Confined P t t
nothing_added t = record { added = []; grows = refl; within = tt }

-- What a validated path satisfies, if validation succeeded.
abbrev Validated : (String → Type 0) → Result String → Type 0
Validated P (ok path) = P path
Validated P (err e) = Unit

-- The empty name, or an approved path.
abbrev pub MayTouch : Outside → List Call → String → String → Type 0
MayTouch o t prefix path = (path ≡ "") ⊎ Approved o t prefix path

validate-Validated :
    (o : Outside) (prefix path : String) (w : World)
    → (r : Result String) × (validate o prefix path w ≡ ret r w)
      × Validated (Approved o w.trace prefix) r
unfolding validate stepping
validate-Validated o prefix path w =
    elim (Bool-cases (o.ensure_access w.trace (new_path prefix path) prefix)) [
      | inl yes_access ↦ (ok (new_path prefix path), ground arith, yes_access)
      | inr denied ↦ (err (other "access denied"), ground arith, tt)
    ]

weaken_target :
    (o : Outside) (t : List Call) (prefix : String) (r : Result String)
    → Validated (Approved o t prefix) r
    → Validated (MayTouch o t prefix) r
weaken_target o t prefix (ok path) h = inr h
weaken_target o t prefix (err e) h = tt

validate_target-Validated :
    (o : Outside) (prefix target : String) (w : World)
    → (r : Result String) × (validate_target o prefix target w ≡ ret r w)
      × Validated (MayTouch o w.trace prefix) r
unfolding validate_target pure
validate_target-Validated o prefix target w = elim (Bool-cases (target == "")) [
  | inl nothing ↦ (ok "", rw nothing refl, inl refl)
  | inr named ↦
      let (r, e, h) = validate-Validated o prefix target w in
      (r, rw named e, weaken_target o w.trace prefix r h)
]

-- A command of an SFTP client changes only paths that the access check admitted below the session's
-- folder when the command began, or the empty name; also where the command fails.
pub file_cmd-Confined :
    (o : Outside) (prefix : String) (r : Request) (w : World)
    → Confined (MayTouch o w.trace prefix) w.trace (final (file_cmd o prefix r w)).trace
unfolding file_cmd pure
file_cmd-Confined o prefix r w =
    let (source, e, h) = validate-Validated o prefix r.file_path w in
    rw (bind-ret _ _ w e) (behind_source source h)
  where
    behind_target :
        (source : String) (target : Result String)
        → Approved o w.trace prefix source
        → Validated (MayTouch o w.trace prefix) target
        → Confined
            (MayTouch o w.trace prefix)
            w.trace
            (final (
              (elim target as (λ _. Go (Option Err)) [
                | err e ↦ pure (some (mask_error o prefix e))
                | ok target_name ↦ run_cmd o r.method source target_name
              ])
                w)).trace
    behind_target source (err e) hs ht = nothing_added w.trace
    behind_target source (ok target) hs ht =
        (run_cmd-Keeps o _ w.trace r.method source target (inr hs) ht).at w (nothing_added w.trace)

    behind_source :
        (source : Result String)
        → Validated (Approved o w.trace prefix) source
        → Confined
            (MayTouch o w.trace prefix)
            w.trace
            (final (
              (elim source as (λ _. Go (Option Err)) [
                | err e ↦ pure (some (mask_error o prefix e))
                | ok source_name ↦ validate_target o prefix r.target >>= λ target. elim target [
                  | err e ↦ pure (some (mask_error o prefix e))
                  | ok target_name ↦ run_cmd o r.method source_name target_name
                ]
              ])
                w)).trace
    behind_source (err e) h = nothing_added w.trace
    behind_source (ok source) h =
        let (target, e, k) = validate_target-Validated o prefix r.target w in
        rw (bind-ret _ _ w e) (behind_target source target h k)

pub validate-ok :
    (o : Outside) (prefix path : String) (w : World)
    → o.ensure_access w.trace (new_path prefix path) prefix ≡ true
    → validate o prefix path w ≡ ret (ok (new_path prefix path)) w
unfolding validate stepping
validate-ok o prefix path w h = ground arith

pub validate-err :
    (o : Outside) (prefix path : String) (w : World)
    → o.ensure_access w.trace (new_path prefix path) prefix ≡ false
    → validate o prefix path w ≡ ret (err (other "access denied")) w
unfolding validate stepping
validate-err o prefix path w h = ground arith

-- Writing a file changes only the path that the access check admitted and the folder it lies in,
-- which is made if it is not there; a path that is not admitted changes nothing.
pub file_write-Confined :
    (o : Outside) (prefix : String) (r : Request) (w : World)
    → Confined
        (λ path.
          ((path ≡ new_path prefix r.file_path) ⊎ (path ≡ dir (new_path prefix r.file_path)))
          × Approved o w.trace prefix (new_path prefix r.file_path))
        w.trace
        (final (file_write o prefix r w)).trace
unfolding file_write get_file pure
file_write-Confined o prefix r w =
    elim (Bool-cases (o.ensure_access w.trace (new_path prefix r.file_path) prefix)) [
      | inl yes_access ↦ rw (bind-ret _ _ w (validate-ok o prefix r.file_path w yes_access)) (
          (open_or_create-Keeps o _ w.trace prefix (new_path prefix r.file_path)
              (inl refl, yes_access) (inr refl, yes_access)).at
            w (nothing_added w.trace))
      | inr denied ↦
          rw (bind-ret _ _ w (validate-err o prefix r.file_path w denied)) (nothing_added w.trace)
    ]
