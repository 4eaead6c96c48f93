-- ===== src/Operations/Cached.antt =====
-- What an artifact of the cache is worth (environments/download.go).
use pufferd.Common.{
  ℕ, String, Bool, List, ◌∷◌, true, false, Option, none, some, is_some, if◌then◌else◌, ◌==◌, not,
  ◌&&◌, ◌≡◌, ◌⊎◌, inl, inr, refl, arith, subst,
}
use pufferd.Text.{◌<>◌}
use pufferd.Types.{Err, is_exist, is_not_exist}
use pufferd.FilePath.{dir}
use pufferd.World.{
  Call, World, Outside, Outcome, ret, panic, Go, pure, crash, ◌>>=◌, ◌>>◌, ask, record_call,
  stepping,
}
use pufferd.World.Runs.{bind-eq, then_run}
use pufferd.Operations.Downloads.{
  get_into, download_file_to_cache, cache_is_valid, announce, fetch, cache_path, download_via_maven,
}

module _ (o : Outside) (url path : String) where
  -- The last call has copied the whole artifact into the file.
  pub record Fetched (v : World) : Type 0 where
    pub earlier : List Call
    pub copied_last : v.trace ≡ Call.copy_body url path ∷ earlier
    pub no_error : o.answer earlier (Call.copy_body url path) ≡ none

  abbrev AfterCopy : Outcome (Option Err) → Type 0
  AfterCopy (ret none v) = Fetched v
  AfterCopy (ret (some e) v) = Unit
  AfterCopy (panic v) = Unit

  or_stop :
      (x : Option Err) (k : Go (Option Err)) (w : World)
      → AfterCopy (k w)
      → AfterCopy ((if is_some x then pure x else k) w)
  unfolding pure
  or_stop none k w h = h
  or_stop (some e) k w h = tt

  copied :
      (w : World) (x : Option Err)
      → o.answer w.trace (Call.copy_body url path) ≡ x
      → AfterCopy (ret x (record_call (Call.copy_body url path) w))
  copied w none h = record { earlier = w.trace; copied_last = refl; no_error = h }
  copied w (some e) h = tt

  get_into-AfterCopy : (w : World) → AfterCopy (get_into o url path w)
  unfolding stepping
  get_into-AfterCopy w =
      or_stop (o.answer w.trace (Call.http_get url)) (ask o (Call.copy_body url path))
        (record_call (Call.http_get url) w) (copied (record_call (Call.http_get url) w) _ refl)

  create-AfterCopy :
      (w : World)
      → AfterCopy (
          (ask o (Call.create_file path) >>= λ e. if is_some e then pure e else get_into o url path)
            w)
  unfolding stepping
  create-AfterCopy w =
      or_stop (o.answer w.trace (Call.create_file path)) (get_into o url path)
        (record_call (Call.create_file path) w)
        (get_into-AfterCopy (record_call (Call.create_file path) w))

  stop_if :
      (b : Bool) (e : Err) (k : Go (Option Err)) (w : World)
      → AfterCopy (k w)
      → AfterCopy ((if b then pure (some e) else k) w)
  unfolding pure
  stop_if true e k w h = tt
  stop_if false e k w h = h

  made-AfterCopy :
      (made : Option Err) (k : Go (Option Err)) (w : World)
      → AfterCopy (k w)
      → AfterCopy ((if is_some made && not (is_exist made) then pure made else k) w)
  unfolding pure is_exist
  made-AfterCopy none k w h = h
  made-AfterCopy (some e) k w h = stop_if (not (is_exist (some e))) e k w h

  download_file_to_cache-AfterCopy : (w : World) → AfterCopy (download_file_to_cache o url path w)
  unfolding download_file_to_cache stepping
  download_file_to_cache-AfterCopy w =
      made-AfterCopy (o.answer w.trace (Call.mkdir_all (dir path)))
        (ask o (Call.create_file path) >>= λ e. if is_some e then pure e else get_into o url path)
        (record_call (Call.mkdir_all (dir path)) w)
        (create-AfterCopy (record_call (Call.mkdir_all (dir path)) w))

  -- The server's hash is that of the file, which was read behind some calls.
  pub record Verified (before : List Call) (v : World) : Type 0 where
    pub matches :
        (o.reply
            (Call.http_get (url <> ".sha1") ∷ Call.read_file path ∷ before)
            (Call.http_read (url <> ".sha1"))
          == o.sha1 (o.reply before (Call.read_file path)))
        ≡ true
    pub nothing_else :
        v.trace
        ≡ Call.http_read (url <> ".sha1")
          ∷ Call.http_get (url <> ".sha1")
          ∷ Call.read_file path
          ∷ before

  abbrev AfterCheck : List Call → Outcome Bool → Type 0
  AfterCheck before (ret true v) = Verified before v
  AfterCheck before (ret false v) = Unit
  AfterCheck before (panic v) = Unit

  compared :
      (before : List Call) (b : Bool) (v : World)
      → (b ≡ true → Verified before v)
      → AfterCheck before (ret b v)
  compared before true v h = h refl
  compared before false v h = tt

  or_invalid :
      (before : List Call) (x : Option Err) (k : Go Bool) (w : World)
      → AfterCheck before (k w)
      → AfterCheck before ((if is_some x then pure false else k) w)
  unfolding pure
  or_invalid before none k w h = h
  or_invalid before (some e) k w h = tt

  or_crash :
      (before : List Call) (x : Option Err) (k : Go Bool) (w : World)
      → AfterCheck before (k w)
      → AfterCheck before ((if is_some x then crash else k) w)
  unfolding crash
  or_crash before none k w h = h
  or_crash before (some e) k w h = tt

  cache_is_valid-AfterCheck : (w : World) → AfterCheck w.trace (cache_is_valid o url path w)
  unfolding cache_is_valid stepping
  cache_is_valid-AfterCheck w =
      let w1 = record_call (Call.read_file path) w in
      let w2 = record_call (Call.http_get (url <> ".sha1")) w1 in
      let w3 = record_call (Call.http_read (url <> ".sha1")) w2 in
      or_crash w.trace (o.answer w.trace (Call.read_file path)) _ w1 (
        or_invalid w.trace (o.answer w1.trace (Call.http_get (url <> ".sha1"))) _ w2 (
          or_invalid w.trace (o.answer w2.trace (Call.http_read (url <> ".sha1"))) _ w3
            (compared w.trace _ w3 (λ same. record { matches = same; nothing_else = refl }))))

  -- The whole function, behind some calls.
  abbrev AfterAll : List Call → Outcome (String × Option Err) → Type 0
  AfterAll before (ret (found, none) v) = (found ≡ path) × (Fetched v ⊎ Verified before v)
  AfterAll before (ret (found, some e) v) = Unit
  AfterAll before (panic v) = Unit

  fetched-AfterAll :
      (before : List Call) (r : Outcome (Option Err))
      → AfterCopy r
      → AfterAll before
          (then_run (λ last. if is_some last then pure ("", last) else pure (path, last)) r)
  unfolding pure
  fetched-AfterAll before (ret none v) h = (refl, inl h)
  fetched-AfterAll before (ret (some e) v) h = tt
  fetched-AfterAll before (panic v) h = tt

  announced-AfterCopy :
      (env : Option ℕ) (w : World)
      → AfterCopy ((announce o url env >> download_file_to_cache o url path) w)
  unfolding announce stepping
  announced-AfterCopy none w = download_file_to_cache-AfterCopy w
  announced-AfterCopy (some e) w = download_file_to_cache-AfterCopy _

  cached-AfterAll :
      (before : List Call) (env : Option ℕ) (opened : Option Err) (w : World)
      → (opened ≡ none → Verified before w)
      → AfterAll before (fetch o url path env true opened w)
  unfolding fetch stepping
  cached-AfterAll before env (some e) w h = tt
  cached-AfterAll before env none w h = (refl, inr (h refl))

  fetch-AfterAll :
      (before : List Call) (env : Option ℕ) (use_cache : Bool) (opened : Option Err) (w : World)
      → (use_cache ≡ true → opened ≡ none → Verified before w)
      → AfterAll before (fetch o url path env use_cache opened w)
  unfolding fetch pure
  fetch-AfterAll before env true opened w h = cached-AfterAll before env opened w (h refl)
  fetch-AfterAll before env false opened w h =
      rw (bind-eq (announce o url env >> download_file_to_cache o url path) _ w)
        (fetched-AfterAll before _ (announced-AfterCopy env w))

  checked-AfterAll :
      (before : List Call) (env : Option ℕ) (r : Outcome Bool)
      → AfterCheck before r
      → AfterAll before (then_run (λ valid. fetch o url path env valid none) r)
  checked-AfterAll before env (ret true v) h = fetch-AfterAll before env true none v (λ _ _. h)
  checked-AfterAll before env (ret false v) h =
      fetch-AfterAll before env false none v (λ used. absurd (ground arith))
  checked-AfterAll before env (panic v) h = tt

  opened-AfterAll :
      (env : Option ℕ) (w : World) (opened : Option Err)
      → AfterAll w.trace (
          (if is_some opened
              then fetch o url path env (not (is_not_exist opened)) opened
              else cache_is_valid o url path >>= λ valid. fetch o url path env valid opened)
            w)
  opened-AfterAll env w (some e) =
      fetch-AfterAll w.trace env (not (is_not_exist (some e))) (some e) w
        (λ used nothing. absurd (ground arith))
  opened-AfterAll env w none =
      rw (bind-eq (cache_is_valid o url path) _ w)
        (checked-AfterAll w.trace env (cache_is_valid o url path w) (cache_is_valid-AfterCheck w))

-- The answer of `DownloadViaMaven` without an error is the path of the cache, and the file there was either
-- copied whole from the server by its last call, or it was there before and its hash is the one that the
-- server gave for it in this call.
pub download_via_maven-Verified :
    (o : Outside) (url found : String) (env : Option ℕ) (w v : World)
    → download_via_maven o url env w ≡ ret (found, none) v
    → (found ≡ cache_path o url)
      × (Fetched o url (cache_path o url) v
          ⊎ Verified o url (cache_path o url) (Call.open_file (cache_path o url) ∷ w.trace) v)
unfolding download_via_maven ◌>>=◌ ask
download_via_maven-Verified o url found env w v h =
    subst (AfterAll o url (cache_path o url) (Call.open_file (cache_path o url) ∷ w.trace)) h (
      opened-AfterAll o url (cache_path o url) env
        (record_call (Call.open_file (cache_path o url)) w)
        (o.answer w.trace (Call.open_file (cache_path o url))))
