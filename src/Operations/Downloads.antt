-- ===== src/Operations/Downloads.antt =====
-- environments/download.go: downloads into a server's folder and into the cache.
use pufferd.Common.{
  ℕ, String, Bool, [], false, Option, none, some, is_some, if◌then◌else◌, ◌==◌, not, ◌&&◌,
}
use pufferd.Types.{Err, is_exist, is_not_exist}
use pufferd.Text.{◌<>◌, trim_prefix}
use pufferd.FilePath.{join, dir}
use pufferd.World.{Call, Outside, Go, pure, crash, ◌>>=◌, ◌>>◌, ask, ask_reply, tell}

-- A response's body, and its error if there is one.
abbrev pub get_into : Outside → String → String → Go (Option Err)
get_into o url target = do
  err ← ask o (Call.http_get url)
  if is_some err then pure err else ask o (Call.copy_body url target)

-- `DownloadFile`.
unfoldable pub download_file : Outside → String → String → ℕ → Go (Option Err)
unfolding join
download_file o url file_name env = do
  let target = join (o.root_directory env) file_name
  err ← ask o (Call.create_file target)
  if is_some err
      then pure err
      else tell o (Call.display env ("Downloading: " <> url <> "\n") []) >> get_into o url target

-- `DownloadFileToCache`.
unfoldable pub download_file_to_cache : Outside → String → String → Go (Option Err)
unfolding dir is_exist
download_file_to_cache o url file_name = do
  made ← ask o (Call.mkdir_all (dir file_name))
  if is_some made && not (is_exist made) then pure made else do
    err ← ask o (Call.create_file file_name)
    if is_some err then pure err else get_into o url file_name

-- Is the cached file what the server's hash says? A file that opens and cannot be read ends the
-- daemon (`log.Fatal`).
unfoldable pub cache_is_valid : Outside → String → String → Go Bool
cache_is_valid o url local_path = do
  (content, unread) ← ask_reply o (Call.read_file local_path)
  if is_some unread then crash else do
    err ← ask o (Call.http_get (url <> ".sha1"))
    if is_some err then pure false else do
      (expected, failed) ← ask_reply o (Call.http_read (url <> ".sha1"))
      if is_some failed then pure false else pure (expected == o.sha1 content)

unfoldable pub announce : Outside → String → Option ℕ → Go (Unit {0})
announce o url none = pure tt
announce o url (some e) = tell o (Call.display e ("Downloading:" <> url) [])

-- The last part of `DownloadViaMaven`: `err` is the error of opening the cached file.
unfoldable pub fetch :
    Outside → String → String → Option ℕ → Bool → Option Err → Go (String × Option Err)
unfolding download_file_to_cache announce
fetch o url local_path env use_cache err = do
  last ←
      if use_cache
      then pure err
      else (announce o url env >> download_file_to_cache o url local_path)
  if is_some last then pure ("", last) else pure (local_path, last)

-- Where a download is cached: its address without the scheme, below the cache folder.
unfoldable pub cache_path : Outside → String → String
unfolding join trim_prefix
cache_path o url = join o.cache_folder (trim_prefix (trim_prefix url "http://") "https://")

-- `DownloadViaMaven`: the path of the cached file, or "" and an error.
unfoldable pub download_via_maven : Outside → String → Option ℕ → Go (String × Option Err)
unfolding cache_path fetch cache_is_valid is_not_exist
download_via_maven o url env = do
  let local_path = cache_path o url
  err ← ask o (Call.open_file local_path)
  if is_some err
      then fetch o url local_path env (not (is_not_exist err)) err
      else do valid ← cache_is_valid o url local_path; fetch o url local_path env valid err
