-- ===== src/Programs/Loaded.antt =====
-- Loading the folder of servers (programs/loader.go, `LoadFromFolder`).
use pufferd.Common.{
  ℕ, String, Bool, List, [], ◌∷◌, ◌++◌, true, false, Option, none, some, is_some, if◌then◌else◌,
  ◌≡◌, ◌≢◌, refl, ap, sym, subst, ◌∙◌, length, All, Bool-cases, inl, inr, ◌==◌, ◌||◌, eq_same,
}
use pufferd.Types.{err, ok, Err, Result, Result-cases, Program}
use pufferd.FilePath.{trim_ext}
use pufferd.World.{
  panic, crash, Call, World, Outside, Outcome, ret, Go, pure, ◌>>=◌, ◌>>◌, final, record_call,
  ask_reply, need, stepping,
}
use pufferd.World.Runs.{bind-eq, then_run}
use pufferd.Program.{create_program}
use pufferd.Programs.{
  load_from_data, load_decoded, load, load_all, remember, get_from_cache, with_environment,
  pointer_of, definition_path,
}
use pufferd.Programs.Directory.{Extends, Extends-self}
use pufferd.Programs.Registry.{IsSound}
use pufferd.Programs.Registry.Kept.{IsSound-same}
use pufferd.Programs.Registry.Added.{IsSound-added, view_added_at}

-- How loading ends: nothing is made, or a new object of the identifier, or it panics; the list stays.
pub data Loaded (id : String) (heap : List Program) (ps : List ℕ)
    : Outcome (Option ℕ × Option Err) → Type 0 where
  nothing :
      {v : World} (failed : Option Err)
      → v.heap ≡ heap
      → v.all_programs ≡ ps
      → Loaded id heap ps (ret (none, failed) v)
  made :
      {v : World} (program : Program)
      → program.identifier ≡ id
      → v.heap ≡ heap ++ program ∷ []
      → v.all_programs ≡ ps
      → Loaded id heap ps (ret (some (length heap), none) v)
  crashed : {v : World} → v.heap ≡ heap → v.all_programs ≡ ps → Loaded id heap ps (panic v)

module _ (o : Outside) (id : String) where
  -- The same of `LoadFromData`.
  abbrev Read : List Program → List ℕ → Outcome (Result ℕ) → Type 0
  Read heap ps r = Loaded id heap ps (then_run (λ x. pure (pointer_of x)) r)

  load_decoded-Read :
      (r : Result Program) (w : World) → Read w.heap w.all_programs (load_decoded o id r w)
  unfolding load_decoded with_environment stepping
  load_decoded-Read (err e) w = nothing (some e) refl refl
  load_decoded-Read (ok program) w =
      elim (Result-cases (o.environment_type program.server_environment)) [
        | inl (e, bad) ↦ rw (bad, load_decoded) (nothing (some e) refl refl)
        | inr (kind, known) ↦
            rw (known, load_decoded)
              (elim (Result-cases
                (o.new_environment w.trace kind o.server_folder id program.server_environment)) [
                  | inl (e, bad) ↦ rw bad (nothing (some e) refl refl)
                  | inr (e, done) ↦
                      rw done (made (with_environment id (some e) program) refl refl refl)
                ])
      ]

  load_from_data-Read :
      (source : String) (w : World) → Read w.heap w.all_programs (load_from_data o id source w)
  unfolding load_from_data crash
  load_from_data-Read source w = elim (Bool-cases (o.is_null source)) [
    | inl is_null ↦ rw is_null (crashed refl refl)
    | inr is_text ↦ rw is_text (load_decoded-Read (o.decode create_program source) w)
  ]

  load-Loaded : (w : World) → Loaded id w.heap w.all_programs (load o id w)
  unfolding load ask_reply ◌>>=◌ pure
  load-Loaded w = chosen (o.reply w.trace c == "" || is_some (o.answer w.trace c))
    where
      c : Call
      c = Call.read_file (definition_path o id)

      chosen :
          (b : Bool)
          → Loaded id w.heap w.all_programs (
              (if b
                  then pure (none, o.answer w.trace c)
                  else (load_from_data o id (o.reply w.trace c) >>= λ x. pure (pointer_of x)))
                (record_call c w))
      chosen true = nothing (o.answer w.trace c) refl refl
      chosen false =
          rw
            (bind-eq (load_from_data o id (o.reply w.trace c)) (λ x. pure (pointer_of x))
              (record_call c w))
            (load_from_data-Read (o.reply w.trace c) (record_call c w))

-- The files' names lead to different identifiers, none of which is in the list.
abbrev pub HasDistinctStems : List String → Type 0
HasDistinctStems [] = Unit
HasDistinctStems (name ∷ names) =
    All (λ later. trim_ext name ≢ trim_ext later) names × HasDistinctStems names

abbrev pub AreFree : World → List String → Type 0
AreFree w names = All (λ name. get_from_cache (trim_ext name) w ≡ none) names

not_same : (i j : String) → i ≢ j → (i == j) ≡ false
not_same i j ne = elim (Bool-cases (i == j)) [
  | inl same ↦ absurd (ne (eq_same i j same))
  | inr other ↦ other
]

AreFree-same :
    (w v : World) (names : List String)
    → v.heap ≡ w.heap
    → v.all_programs ≡ w.all_programs
    → AreFree w names
    → AreFree v names
unfolding get_from_cache
AreFree-same w v [] h l f = tt
AreFree-same w v (name ∷ names) h l (f, fs) = (rw (h, l) f, AreFree-same w v names h l fs)

same-Extends : (w v : World) → v.heap ≡ w.heap → Extends w.heap v.heap
same-Extends w v h = subst (λ ys. Extends w.heap ys) (sym h) (Extends-self w.heap)

-- The next state, with the new object in the list.
module _ (o : Outside) (w u : World) (s : IsSound w) (program : Program) (name : String)
    (named : program.identifier ≡ trim_ext name) (h : u.heap ≡ w.heap ++ program ∷ [])
    (l : u.all_programs ≡ w.all_programs ++ length w.heap ∷ [])
    (free : get_from_cache (trim_ext name) w ≡ none) where
  Extends-fresh : Extends (w.heap ++ program ∷ []) u.heap
  Extends-fresh = subst (λ ys. Extends (w.heap ++ program ∷ []) ys) (sym h) (Extends-self _)

  free_name : get_from_cache program.identifier w ≡ none
  free_name = ap (λ id. get_from_cache id w) named ∙ free

  IsSound-next : IsSound u
  IsSound-next = IsSound-added o w s program u Extends-fresh free_name l

  AreFree-next :
      (names : List String)
      → All (λ later. trim_ext name ≢ trim_ext later) names
      → AreFree w names
      → AreFree u names
  AreFree-next [] d f = tt
  AreFree-next (later ∷ names) (d, ds) (f, fs) = (
    view_added_at o w s program u Extends-fresh free_name l (trim_ext later)
        ∙ ap (λ b. if b then some (length w.heap) else get_from_cache (trim_ext later) w)
            (ap (λ id. id == trim_ext later) named ∙ not_same (trim_ext name) (trim_ext later) d)
        ∙ f,
    AreFree-next names ds fs,
  )

pub load_all-IsSound :
    (o : Outside) (names : List String) (w : World)
    → HasDistinctStems names
    → AreFree w names
    → IsSound w
    → IsSound (final (load_all o names w))
unfolding load_all stepping
load_all-IsSound o [] w d f s = s
load_all-IsSound o (name ∷ names) w (d, ds) (f, fs) s =
    let later : (v : World) → AreFree v names → IsSound v → IsSound (final (load_all o names v)) =
      λ v free sound. load_all-IsSound o names v ds free sound in
    rw (bind-eq (load o (trim_ext name)) (entered names) w)
      (go later (load o (trim_ext name) w) (load-Loaded o (trim_ext name) w))
  where
    entered : List String → Option ℕ × Option Err → Go (Unit {0})
    entered names (program, failed) =
        if is_some failed
        then load_all o names
        else (need program >>= λ p. remember p >> load_all o names)

    go :
        ((v : World) → AreFree v names → IsSound v → IsSound (final (load_all o names v)))
        → (r : Outcome (Option ℕ × Option Err)) → Loaded (trim_ext name) w.heap w.all_programs r
        → IsSound (final (then_run (entered names) r))
    go later r (nothing {v = v} (some e) h l) =
        later v (AreFree-same w v names h l fs) (IsSound-same w v (same-Extends w v h) s l)
    go later r (nothing {v = v} none h l) = IsSound-same w v (same-Extends w v h) s l
    go later r (crashed {v = v} h l) = IsSound-same w v (same-Extends w v h) s l
    go later r (made {v = v} program named h l) =
        let u : World = record v { all_programs = v.all_programs ++ length w.heap ∷ [] } in
        later u
          (AreFree-next o w u s program name named h (ap (λ ps. ps ++ length w.heap ∷ []) l) f names
            d fs)
          (IsSound-next o w u s program name named h (ap (λ ps. ps ++ length w.heap ∷ []) l) f)
